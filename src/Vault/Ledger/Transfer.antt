-- ===== src/Vault/Ledger/Transfer.antt =====
-- Who has how much after a transfer.
use aethel_runtime.Base.{ℕ, ◌+◌, ◌-◌, ◌%◌, ◌^◌, ◌≡◌, refl, sym, ◌∙◌, ◌≢◌, some, arith, length}
use aethel_runtime.Base.Bytes.{Bytes}
use aethel_runtime.Vault.Ledger.{
  err_ok, VaultState, Ledger, Fhe, position, entry_at, with_state_mut, vault_get_balance, indices,
  write_back, do_homomorphic_transfer, transfer_between, homomorphic_transfer,
}
use aethel_runtime.Vault.Ledger.Cells.{
  find_entry-set_entry, find_entry-set_entry_ne, position-set_entry,
}
use aethel_runtime.Vault.Ledger.Balances.{
  Decrypts, moved, plain, balance, computed, Stored, stored, has_state, plain-ct,
}

module _ {K C B : Type 0} (fhe : Fhe K C B) (key : K) (d : Decrypts fhe key) where
  -- A ledger that can make a transfer: its key is the one that its ciphertexts are under, both vaults
  -- have a balance, and the amount is a ciphertext.
  pub record Ready (l : Ledger) (sender receiver transfer_ct : Bytes) (a b t : ℕ) : Type 0 where
    pub key_bytes : Bytes
    pub has_key : l.server_key_bytes ≡ some key_bytes
    pub is_key : fhe.deserialize_key key_bytes ≡ some key
    pub sender_length : length sender ≡ 32
    pub receiver_length : length receiver ≡ 32
    pub sender_balance : balance fhe key d l sender ≡ some a
    pub receiver_balance : balance fhe key d l receiver ≡ some b
    pub amount : plain fhe key d transfer_ct ≡ some t

  record Written (l : Ledger) (sender receiver transfer_ct : Bytes) (a b t : ℕ) : Type 0 where
    pub s : VaultState
    pub si : ℕ
    pub ri : ℕ
    pub new_sender : Bytes
    pub new_receiver : Bytes
    pub state : l.state ≡ some s
    pub sender_at : position sender s.balances ≡ some si
    pub receiver_at : position receiver s.balances ≡ some ri
    pub writes :
        homomorphic_transfer fhe l sender receiver transfer_ct
        ≡ (err_ok, record l { state = some (write_back si ri new_sender new_receiver s) })
    pub sender_left : plain fhe key d new_sender ≡ some (a - moved a t)
    pub receiver_has : plain fhe key d new_receiver ≡ some ((b + moved a t) % 2 ^ 64)

  writes_both :
      (l : Ledger) (s : VaultState) (sender receiver transfer_ct key_bytes : Bytes) (si ri : ℕ)
      (new : Bytes × Bytes)
      → length sender ≡ 32
      → length receiver ≡ 32
      → l.state ≡ some s
      → position sender s.balances ≡ some si
      → position receiver s.balances ≡ some ri
      → l.server_key_bytes ≡ some key_bytes
      → do_homomorphic_transfer fhe
          (entry_at s.balances si)
          (entry_at s.balances ri)
          transfer_ct
          key_bytes
        ≡ some new
      → homomorphic_transfer fhe l sender receiver transfer_ct
        ≡ (err_ok, record l { state = some (write_back si ri new.0 new.1 s) })
  unfolding homomorphic_transfer indices transfer_between with_state_mut
  writes_both l s sender receiver transfer_ct key_bytes si ri new hl hr hs ps pr hk done =
      ground arith

  decodes_at :
      {vault_id : Bytes} {n : ℕ} (s : VaultState) (from : Stored fhe key d s vault_id n)
      → fhe.deserialize_ct (entry_at s.balances from.index) ≡ some from.ct
  decodes_at s from = rw from.entry from.decodes

  written :
      (l : Ledger) (sender receiver transfer_ct : Bytes) (a b t : ℕ)
      → Ready l sender receiver transfer_ct a b t
      → Written l sender receiver transfer_ct a b t
  written l sender receiver transfer_ct a b t h =
      let (s, hs) = has_state fhe key d l sender a h.sender_balance in
      let from = stored fhe key d l s sender a hs h.sender_balance in
      let to = stored fhe key d l s receiver b hs h.receiver_balance in
      let (tc, ht, et) = plain-ct fhe key d transfer_ct t h.amount in
      let (new, done, left, has) =
        computed fhe key d (entry_at s.balances from.index) (entry_at s.balances to.index)
          transfer_ct h.key_bytes from.ct to.ct tc a b t h.is_key (decodes_at _ from)
          (decodes_at _ to) ht from.amount to.amount et in
      record {
        s = s;
        si = from.index;
        ri = to.index;
        new_sender = new.0;
        new_receiver = new.1;
        state = hs;
        sender_at = from.at;
        receiver_at = to.at;
        writes =
            writes_both l s sender receiver transfer_ct h.key_bytes from.index to.index new
              h.sender_length h.receiver_length hs from.at to.at h.has_key done;
        sender_left = left;
        receiver_has = has;
      }

  -- A transfer between two different registered vaults, with the server key set under which all
  -- three ciphertexts decrypt, succeeds: the sender is left with its balance less the amount and
  -- the receiver has its balance and the amount, modulo 2 ^ 64, or neither changes where the
  -- sender has less than the amount; any other vault keeps what it has. The homomorphic operations
  -- compute on the encrypted numbers as they document.
  pub homomorphic_transfer-balances :
      (l : Ledger) (sender receiver transfer_ct other : Bytes) (a b t : ℕ)
      → Ready l sender receiver transfer_ct a b t
      → receiver ≢ sender
      → other ≢ sender
      → other ≢ receiver
      → ((homomorphic_transfer fhe l sender receiver transfer_ct).0 ≡ err_ok)
        × (balance fhe key d (homomorphic_transfer fhe l sender receiver transfer_ct).1 sender
            ≡ some (a - moved a t))
        × (balance fhe key d (homomorphic_transfer fhe l sender receiver transfer_ct).1 receiver
            ≡ some ((b + moved a t) % 2 ^ 64))
        × (balance fhe key d (homomorphic_transfer fhe l sender receiver transfer_ct).1 other
            ≡ balance fhe key d l other)
  unfolding balance vault_get_balance write_back
  homomorphic_transfer-balances l sender receiver transfer_ct other a b t h ne p q =
      let w = written l sender receiver transfer_ct a b t h in
      let there = position-set_entry receiver w.new_sender w.s.balances w.si ∙ w.receiver_at in
      rw w.writes (
        refl,
        rw
            (
              find_entry-set_entry_ne receiver sender w.new_receiver _ w.ri there (λ e. ne (sym e)),
              find_entry-set_entry sender w.new_sender w.s.balances w.si w.sender_at,
            )
            w.sender_left,
        rw (find_entry-set_entry receiver w.new_receiver _ w.ri there) w.receiver_has,
        rw
            (
              find_entry-set_entry_ne receiver other w.new_receiver _ w.ri there q,
              find_entry-set_entry_ne sender other w.new_sender w.s.balances w.si w.sender_at p,
              w.state,
            )
            refl,
      )

  -- A transfer from a registered vault to itself, with the server key set under which its
  -- ciphertext and the amount decrypt, succeeds and leaves the vault with its balance and the
  -- amount, modulo 2 ^ 64, or with its balance where that is less than the amount. The homomorphic
  -- operations compute on the encrypted numbers as they document.
  pub transfer_to_self-mints :
      (l : Ledger) (vault_id transfer_ct : Bytes) (a t : ℕ)
      → Ready l vault_id vault_id transfer_ct a a t
      → ((homomorphic_transfer fhe l vault_id vault_id transfer_ct).0 ≡ err_ok)
        × (balance fhe key d (homomorphic_transfer fhe l vault_id vault_id transfer_ct).1 vault_id
            ≡ some ((a + moved a t) % 2 ^ 64))
  unfolding balance vault_get_balance write_back
  transfer_to_self-mints l vault_id transfer_ct a t h =
      let w = written l vault_id vault_id transfer_ct a a t h in
      let there = position-set_entry vault_id w.new_sender w.s.balances w.si ∙ w.receiver_at in
      rw w.writes
        (refl, rw (find_entry-set_entry vault_id w.new_receiver _ w.ri there) w.receiver_has)
