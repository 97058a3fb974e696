-- ===== src/Vault/Examples/Clients.antt =====
-- The theorems about the client, the wasm32 transfer and the queue at concrete inputs.
use aethel_runtime.Base.{
  ℕ, ◌%◌, ◌^◌, ◌≡◌, refl, Bool, true, false, Option, none, some, List, [], ◌∷◌, ◌++◌, arith, ◌==◌,
  length,
}
use aethel_runtime.Base.Bytes.{Bytes}
use aethel_runtime.Base.Options.{◌>>=◌}
use aethel_runtime.Vault.Ledger.{Ledger, vault_get_balance}
use aethel_runtime.Vault.Ledger.Wasm.{HostFhe}
use aethel_runtime.Vault.Client.{
  LedgerPayload, Tfhe, NativeVaultClient, encrypt_u64_balance, export_server_key, build_payload,
}
use aethel_runtime.Vault.Client.Keys.{Settles}
use aethel_runtime.Vault.Client.Session.{
  Documents, new_client, new_keys, new-Belongs, session-read_back,
}
use aethel_runtime.Vault.Helix.Queue.{Call, queue, drain, serve, serve-queued}
use aethel_runtime.Vault.Examples.Ledgers.{number, toy_fhe, decrypts, id, ids_differ}

abbrev toy_tfhe : Tfhe (Unit {0}) (Unit {0}) (Unit {0}) (Unit {0}) ℕ
toy_tfhe = record {
  generate_keys = λ r. (tt, tt);
  new_public_key = λ r k. tt;
  try_encrypt = λ r n k. some n;
  decrypt = λ c k. c % 2 ^ 64;
  serialize_key = λ k. some [];
  serialize_payload = λ p. some p.encrypted_amount;
}

documents : Documents toy_tfhe toy_fhe
documents = record {
  computes = λ r. decrypts;
  decrypts = λ r c. refl;
  encrypts = λ r r' n h. (n, refl, omega (arith, h));
  key_survives = λ r. ([], refl, refl);
}

abbrev client : NativeVaultClient (Unit {0}) (Unit {0}) (Unit {0})
client = new_client toy_tfhe toy_fhe documents tt tt

abbrev nothing : Ledger
nothing = record { state = none; server_key_bytes = none; export_buffer = [] }

session-read_back_example :
    (key_bytes ct_a ct_b : Bytes) × (payload : LedgerPayload) × (export_server_key toy_tfhe toy_fhe
        client
      ≡ some key_bytes)
    × (encrypt_u64_balance toy_tfhe toy_fhe tt client 50 ≡ some ct_a)
    × (encrypt_u64_balance toy_tfhe toy_fhe tt client 5 ≡ some ct_b)
    × (build_payload toy_tfhe toy_fhe tt tt client (id 9) 20 2 ≡ some payload)
    × Settles toy_tfhe toy_fhe client
        (new_keys toy_tfhe toy_fhe documents tt tt)
        (new-Belongs toy_tfhe toy_fhe documents tt tt)
        nothing
        key_bytes
        (id 1)
        ct_a
        (id 2)
        ct_b
        payload.encrypted_amount
        50
        5
        20
unfolding vault_get_balance
session-read_back_example =
    session-read_back toy_tfhe toy_fhe documents tt tt nothing (id 1) (id 2) (id 9) 50 5 20 2 tt tt
      tt tt refl refl (ids_differ 1 2 (λ e. omega arith)) refl refl (omega arith) (omega arith)
      (omega arith) (omega arith)

abbrev answer : Option Bytes → Bytes × ℕ
answer none = ([], 0)
answer (some b) = (b, length b)

abbrev single : Option ℕ → Option Bytes
single none = none
single (some n) = some (n ∷ [])

abbrev flag : Bool → Bytes
flag true = 1 ∷ []
flag false = 0 ∷ []

abbrev flagged : Bytes → Bool
flagged [] = false
flagged (n ∷ b) = n == 1

abbrev both : (ℕ → ℕ → ℕ) → Bytes → Bytes → Bytes × ℕ
both f a b = answer (do x ← number a; y ← number b; some (f x y ∷ []))

abbrev toy_wasm_host : HostFhe
toy_wasm_host = record {
  host_fhe_ge = λ a b room. answer (do x ← number a; y ← number b; some (flag (toy_fhe.ge tt x y)));
  host_fhe_zero = λ room. (0 ∷ [], 1);
  host_fhe_select = λ c a b room. both (toy_fhe.if_then_else tt (flagged c)) a b;
  host_fhe_sub = λ a b room. both (toy_fhe.sub tt) a b;
  host_fhe_add = λ a b room. both (toy_fhe.add tt) a b;
}

abbrev calls : List (Call ℕ)
calls = queue 1 ∷ drain ∷ queue 2 ∷ queue 3 ∷ drain ∷ queue 4 ∷ []

serve-queued_example : (serve calls []).0 ++ (serve calls []).1 ≡ 1 ∷ 2 ∷ 3 ∷ 4 ∷ []
serve-queued_example = serve-queued calls []
