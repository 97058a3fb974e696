-- ===== src/Vault/Examples/Calls.antt =====
-- The theorems about the exported calls, at runs of them.
use aethel_runtime.Base.{ℕ, ◌+◌, ◌^◌, ◌≡◌, ◌≢◌, refl, ap, none, [], ◌∷◌, arith}
use aethel_runtime.Base.Bytes.{Bytes, bytes_eq, replicate}
use aethel_runtime.Vault.Ledger.{Ledger, Entries, state_or_new}
use aethel_runtime.Vault.Exports.{
  vault_init, vault_register, vault_register_with_identity, vault_transfer,
  vault_transfer_authenticated_bytes,
}
use aethel_runtime.Vault.Exports.Vaults.{
  Extends, Reach, none_yet, one_more, inits, registers, registers_identity, transfers,
  transfers_authenticated, Reach-Extends,
}
use aethel_runtime.Vault.Exports.Identities.{Owns, authenticated_call-Owns}
use aethel_runtime.Vault.Examples.Ledgers.{toy_fhe, codec, plp, id, funded}

abbrev hashed : Bytes → Bytes
hashed x = replicate 32 4

abbrev keyed : Ledger
keyed = (vault_init toy_fhe codec hashed plp funded []).1

abbrev registered : Ledger
registered = (vault_register toy_fhe codec hashed plp keyed (id 5) (8 ∷ [])).1

abbrev identified : Ledger
identified = (vault_register_with_identity toy_fhe codec hashed plp registered (77 ∷ []) (8 ∷ [])).1

abbrev moved : Ledger
moved = (vault_transfer toy_fhe codec hashed plp identified (id 1) (id 5) (20 ∷ [])).1

abbrev proved : Ledger
proved =
    (vault_transfer_authenticated_bytes toy_fhe codec hashed plp moved (id 1) (id 2) (3 ∷ [])
      (77 ∷ []) (77 ∷ []) []).1

abbrev calls : Reach toy_fhe codec hashed plp funded proved
calls =
    one_more
      (one_more
        (one_more (one_more (one_more none_yet (inits [])) (registers (id 5) (8 ∷ [])))
          (registers_identity (77 ∷ []) (8 ∷ [])))
        (transfers (id 1) (id 5) (20 ∷ [])))
      (transfers_authenticated (id 1) (id 2) (3 ∷ []) (77 ∷ []) (77 ∷ []) [])

Reach-Extends_example : Extends funded proved
Reach-Extends_example = Reach-Extends toy_fhe codec hashed plp (λ x. refl) funded proved calls

abbrev blank : Ledger
blank = record { state = none; server_key_bytes = none; export_buffer = [] }

abbrev alone : Ledger
alone = (vault_init toy_fhe codec hashed plp blank []).1

abbrev owned : Ledger
owned = (vault_register_with_identity toy_fhe codec hashed plp alone (77 ∷ []) (8 ∷ [])).1

abbrev paired : Ledger
paired = (vault_register toy_fhe codec hashed plp owned (id 5) (1 ∷ [])).1

abbrev debited : Ledger
debited =
    (vault_transfer_authenticated_bytes toy_fhe codec hashed plp paired (id 4) (id 5) (3 ∷ [])
      (77 ∷ []) (77 ∷ []) []).1

abbrev first : Entries → ℕ
first [] = 0
first ((id, []) ∷ m) = 0
first ((id, n ∷ v) ∷ m) = n

abbrev first_balance : Ledger → ℕ
first_balance l = first (state_or_new l.state).balances

before_call : first_balance paired ≡ 8
unfolding vault_init vault_register_with_identity vault_register
before_call = refl

after_call : first_balance debited ≡ 2 ^ 64 + 5
unfolding vault_init vault_register_with_identity vault_register vault_transfer_authenticated_bytes
    bytes_eq
after_call = refl

debit_changes : debited ≢ paired
debit_changes h = omega (arith, ap first_balance h, before_call, after_call)

authenticated_call-Owns_example : Owns toy_fhe codec hashed plp (id 4) (77 ∷ []) (77 ∷ []) []
unfolding vault_init vault_register_with_identity vault_register
authenticated_call-Owns_example =
    authenticated_call-Owns toy_fhe codec hashed plp blank paired (id 4) (id 5) (3 ∷ []) (77 ∷ [])
      (77 ∷ []) [] refl
      (one_more (one_more (one_more none_yet (inits [])) (registers_identity (77 ∷ []) (8 ∷ [])))
        (registers (id 5) (1 ∷ [])))
      debit_changes
