-- ===== src/Cli/Toy.antt =====
-- A concrete host for the examples: the key and the sealed identity list what they were made from,
-- every share holds the secret, and the file system is a function.
use aethel_runtime.Base.{
  ℕ, zero, suc, ◌+◌, ◌≤◌, ◌≡◌, refl, sym, ap, subst, inl, inr, Bool, true, Option, none, some, List,
  [], ◌∷◌, ◌++◌, arith, if◌then◌else◌, Bool-cases, length, Result, ok, err,
}
use aethel_runtime.Base.Bytes.{Bytes, bytes_eq, bytes_eq_iff, codes, replicate}
use aethel_runtime.Auth.Toy.{toy}
use aethel_runtime.Auth.Fingerprint.{take}
use aethel_runtime.Cli.Host.{
  IdentityFile, RecoveryRecord, ShareFile, HtssShare, Host, Statement, login_proof, step_up_proof,
  delegated, revoked, succeeded,
}
use aethel_runtime.Cli.Laws.{Hex, Sealing, Sharing, Files, Json, Picked, Issued, Numbered}

abbrev pub drop : ℕ → Bytes → Bytes
drop zero b = b
drop (suc n) [] = []
drop (suc n) (x ∷ b) = drop n b

abbrev pub frame : Bytes → Bytes → Bytes
frame b rest = length b ∷ (b ++ rest)

take_frame : (b rest : Bytes) → take (length b) (b ++ rest) ≡ b
take_frame [] rest = refl
take_frame (x ∷ b) rest = ap (λ (l : Bytes). x ∷ l) (take_frame b rest)

some-inj : {a b : Bytes} → some a ≡ some b → a ≡ b
some-inj h = cc

ok-inj : {a b : Bytes} → ◌≡◌ {A = Result (Unit {0}) Bytes} (ok a) (ok b) → a ≡ b
ok-inj h = cc

drop_frame : (b rest : Bytes) → drop (length b) (b ++ rest) ≡ rest
drop_frame [] rest = refl
drop_frame (x ∷ b) rest = drop_frame b rest

-- A framed field, and what is read after it.
abbrev pub field {ℓ} : {A : Type ℓ} → (Bytes → Bytes → Option A) → Bytes → Option A
field k [] = none
field k (n ∷ b) = k (take n b) (drop n b)

abbrev pub number {ℓ} : {A : Type ℓ} → (ℕ → Bytes → Option A) → Bytes → Option A
number k [] = none
number k (n ∷ b) = k n b

abbrev pub print_recovery : Option RecoveryRecord → Bytes
print_recovery none = []
print_recovery (some r) = r.shares_issued ∷ r.threshold ∷ r.root

abbrev pub parse_recovery : Bytes → Option RecoveryRecord
parse_recovery [] = none
parse_recovery (n ∷ []) = none
parse_recovery (n ∷ t ∷ root) = some (record { root = root; shares_issued = n; threshold = t })

parse_recovery-print : (r : Option RecoveryRecord) → parse_recovery (print_recovery r) ≡ r
parse_recovery-print none = refl
parse_recovery-print (some r) = refl

abbrev pub print_file : IdentityFile → Bytes
print_file f =
    f.version
    ∷ f.kdf.m_cost
    ∷ f.kdf.t_cost
    ∷ f.kdf.p_cost
    ∷ frame f.audience
        (frame f.public_key (frame f.sealed (frame f.kdf.salt (print_recovery f.recovery))))

abbrev pub parse_file : Bytes → Option IdentityFile
parse_file = number λ version. number λ m. number λ t. number λ p. field λ audience. field λ key.
    field λ sealed. field λ salt rest. some (record {
      version = version;
      audience = audience;
      public_key = key;
      sealed = sealed;
      kdf = record { salt = salt; m_cost = m; t_cost = t; p_cost = p };
      recovery = parse_recovery rest;
    })

parse_file-print : (f : IdentityFile) → parse_file (print_file f) ≡ some f
parse_file-print f = simp (take_frame, drop_frame, parse_recovery-print)

abbrev pub print_share : ShareFile → Bytes
print_share f = f.version ∷ f.index ∷ frame f.audience (frame f.value f.path)

abbrev pub parse_share_file : Bytes → Option ShareFile
parse_share_file = number λ version. number λ index. field λ audience. field λ value path.
    some
      (record { version = version; audience = audience; index = index; value = value; path = path })

parse_share_file-print : (f : ShareFile) → parse_share_file (print_share f) ≡ some f
parse_share_file-print f = simp (take_frame, drop_frame)

abbrev pub share : Bytes → ℕ → HtssShare
share secret n = record { index = n; value = secret; path = [] }

abbrev pub five : Bytes → List HtssShare
five secret =
    share secret 1 ∷ share secret 2 ∷ share secret 3 ∷ share secret 4 ∷ share secret 5 ∷ []

-- What the first of enough shares holds.
abbrev pub rebuild : List HtssShare → Result (Unit {0}) Bytes
rebuild [] = err tt
rebuild (s ∷ shares) = ok s.value

abbrev pub reads_as : Option Bytes → Result Bytes Bytes
reads_as none = err (codes "no such file")
reads_as (some text) = ok text

abbrev pub unseal : Bytes → Bytes → Result (Unit {0}) ℕ
unseal [] key = err tt
unseal (i ∷ k) key = if bytes_eq k key then ok i else err tt

abbrev pub first : Bytes → Result (Unit {0}) ℕ
first [] = err tt
first (i ∷ b) = ok i

abbrev pub encoded : Statement → Bytes
encoded (login_proof p) = p.signature
encoded (step_up_proof p) = p.signature
encoded (delegated d) = d.signature
encoded (revoked r) = r.signature
encoded (succeeded s) = s.signature

abbrev pub toy_host : Host (Unit {0}) ℕ (Bytes → Option Bytes)
toy_host = record {
  core = toy;
  read = λ s p. reads_as (s p);
  write = λ s p text. (ok tt, λ q. if bytes_eq p q then some text else s q);
  create_dir_all = λ s p. (ok tt, s);
  is_utf8 = λ text. true;
  not_utf8 = codes "not UTF-8";
  os_rng = λ n len. replicate len (11 + n);
  hex_encode = λ b. b;
  hex_decode = λ b. some b;
  argon2id = λ m t p len. some (λ passphrase salt. some (passphrase ++ salt));
  default_m_cost = 19456;
  default_t_cost = 2;
  default_p_cost = 1;
  generate = first;
  export_sealed = λ i key. ok (i ∷ key);
  import_sealed = unseal;
  split_key_material = λ secret nonce. ok (five secret, replicate 32 0);
  reconstruct_key_material = λ shares root. rebuild shares;
  is_threshold_not_met = λ e. true;
  identity_file_json = λ f. some (print_file f);
  parse_identity_file = parse_file;
  share_json = λ f. some (print_share f);
  parse_share = parse_share_file;
  statement_json = λ v. some (encoded v);
}

pub toy-Hex : Hex toy_host
toy-Hex = record { decode_encode = λ b. refl }

pub toy-Sealing : Sealing toy_host
toy-Sealing = record {
  import-export = λ i key sealed h.
      rw (← (ok-inj h))
        (ap (λ (b : Bool). if b then ok i else err tt) ((bytes_eq_iff key key).1 refl));
}

pub toy-Files : Files toy_host
toy-Files = record {
  read-write = λ s p text h. rw ((bytes_eq_iff p p).1 refl) refl;
  read-other = λ s p q text h. elim (Bool-cases (bytes_eq p q)) [
    | inl e ↦ absurd (h ((bytes_eq_iff p q).0 e))
    | inr e ↦ rw e refl
  ];
}

pub toy-Json : Json toy_host
toy-Json = record {
  utf8 = λ f text h. refl;
  parse-print = λ f text h. rw (← (some-inj h)) (parse_file-print f);
  share_utf8 = λ f text h. refl;
  parse-print_share = λ f text h. rw (← (some-inj h)) (parse_share_file-print f);
}

-- What the toy split made.
toy_shares :
    (secret : Bytes) (shares : List HtssShare) (root : Bytes)
    → ◌≡◌ {A = Result (Unit {0}) (List HtssShare × Bytes)}
        (ok (five secret, replicate 32 0))
        (ok (shares, root))
    → (five secret ≡ shares) × (replicate 32 0 ≡ root)
toy_shares secret shares root h = (cc, cc)

Issued-five : (secret : Bytes) (s : HtssShare) → Issued s (five secret) → s.value ≡ secret
Issued-five secret s (inl e) = sym (ap HtssShare.value e)
Issued-five secret s (inr (inl e)) = sym (ap HtssShare.value e)
Issued-five secret s (inr (inr (inl e))) = sym (ap HtssShare.value e)
Issued-five secret s (inr (inr (inr (inl e)))) = sym (ap HtssShare.value e)
Issued-five secret s (inr (inr (inr (inr (inl e))))) = sym (ap HtssShare.value e)
Issued-five secret s (inr (inr (inr (inr (inr e))))) = absurd e

rebuild-five :
    (secret : Bytes) (picked : List HtssShare)
    → Picked picked (five secret)
    → 3 ≤ length picked
    → rebuild picked ≡ ok secret
rebuild-five secret [] h k = absurd (omega (arith, k))
rebuild-five secret (s ∷ picked) h k = ap ok (Issued-five secret s h.0)

pub toy-Sharing : Sharing toy_host
toy-Sharing = record {
  root_length = λ {secret} {nonce} {root} {shares} h.
      subst (λ (r : Bytes). length r ≡ 32) (toy_shares secret shares root h).1 refl;
  numbered = λ {secret} {nonce} {root} {shares} h.
      subst (λ (l : List HtssShare). Numbered l) (toy_shares secret shares root h).0 (omega arith);
  reassembles = λ {secret} {nonce} {root} {shares} picked h from enough.
      rebuild-five secret picked
        (subst (λ (l : List HtssShare). Picked picked l) (sym (toy_shares secret shares root h).0)
          from)
        enough;
}
