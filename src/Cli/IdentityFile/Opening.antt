-- ===== src/Cli/IdentityFile/Opening.antt =====
-- crates/aethel-auth-cli/src/identity_file.rs: when a file opens, and that the files which the tool
-- makes do.
use aethel_runtime.Base.{
  ◌≡◌, sym, ap, ◌∙◌, subst, ◌↔◌, inl, inr, Option, none, some, arith, Option-cases, ok,
  Result-cases,
}
use aethel_runtime.Base.Bytes.{Bytes, bytes_eq_iff}
use aethel_runtime.Cli.Host.{IdentityFile, RecoveryRecord, Host}
use aethel_runtime.Cli.Laws.{Hex, Sealing}
use aethel_runtime.Cli.Action.{World, returned}
use aethel_runtime.Cli.Action.Steps.{
  Hoare, Hoare-any, Hoare-change, Hoare-keep, Hoare-pure, Hoare-lift, Hoare-bind,
}
use aethel_runtime.Cli.IdentityFile.{fresh, derive, seal, generated, unsealed, open_file}
use aethel_runtime.Cli.IdentityFile.Disk.{create, from_entropy}

module _ {E I S : Type 0} (host : Host E I S) where
  -- `identity` is what the file holds under the passphrase.
  pub record Opens (file : IdentityFile) (passphrase : Bytes) (identity : I) : Type 0 where
    pub version : file.version ≡ 1
    pub key : Bytes
    pub derived : derive host file.kdf passphrase ≡ ok key
    pub sealed : Bytes
    pub decoded : host.hex_decode file.sealed ≡ some sealed
    pub imported : host.import_sealed sealed key ≡ ok identity
    pub published : host.hex_encode (host.core.public_key identity) ≡ file.public_key

  open_file-Opens :
      (file : IdentityFile) (passphrase : Bytes) (identity : I)
      → open_file host file passphrase ≡ ok identity
      → Opens file passphrase identity
  unfolding open_file unsealed
  open_file-Opens file passphrase identity h =
      elim (Result-cases (derive host file.kdf passphrase)) [
        | inr (e, d) ↦ absurd (ground (arith, d, h))
        | inl (key, d) ↦ elim (Option-cases (host.hex_decode file.sealed)) [
          | inl n ↦ absurd (ground (arith, d, h, n))
          | inr (sealed, s) ↦ elim (Result-cases (host.import_sealed sealed key)) [
            | inr (e, m) ↦ absurd (ground (arith, d, h, s, m))
            | inl (found, m) ↦
                let same : found ≡ identity = ground (arith, d, h, s, m) in
                record {
                  version = ground (arith, d, h, s, m);
                  key = key;
                  derived = d;
                  sealed = sealed;
                  decoded = s;
                  imported = subst (λ (t : I). host.import_sealed sealed key ≡ ok t) same m;
                  published = ground (
                    arith,
                    d,
                    h,
                    s,
                    m,
                    same,
                    bytes_eq_iff (host.hex_encode (host.core.public_key found)) file.public_key,
                  );
                }
          ]
        ]
      ]

  -- A file opens to `identity` if and only if
  pub open_file_iff :
      (file : IdentityFile) (passphrase : Bytes) (identity : I)
      → (open_file host file passphrase ≡ ok identity) ↔ Opens file passphrase identity
  unfolding open_file unsealed
  open_file_iff file passphrase identity = (
    open_file-Opens file passphrase identity,
    λ o.
        rw (o.version, o.derived, o.decoded, o.imported)
          (ground (
            arith,
            o.published,
            bytes_eq_iff (host.hex_encode (host.core.public_key identity)) file.public_key,
          )),
  )

  -- What a seal made: the identity's file, under these costs and a salt.
  pub record IsSeal (file : IdentityFile) (audience salt passphrase : Bytes) (identity : I)
      : Type 0 where
    pub key : Bytes
    pub derived : derive host (fresh host salt) passphrase ≡ ok key
    pub sealed : Bytes
    pub exported : host.export_sealed identity key ≡ ok sealed
    pub is : file ≡ record {
      version = 1;
      audience = audience;
      public_key = host.hex_encode (host.core.public_key identity);
      sealed = host.hex_encode sealed;
      kdf = fresh host salt;
      recovery = none;
    }

  pub seal-IsSeal :
      (audience salt passphrase : Bytes) (identity : I) (file : IdentityFile)
      → seal host audience identity salt passphrase ≡ ok file
      → IsSeal file audience salt passphrase identity
  unfolding seal
  seal-IsSeal audience salt passphrase identity file h =
      elim (Result-cases (derive host (fresh host salt) passphrase)) [
        | inr (e, d) ↦ absurd (ground (arith, d, h))
        | inl (key, d) ↦ elim (Result-cases (host.export_sealed identity key)) [
          | inr (e, s) ↦ absurd (ground (arith, d, h, s))
          | inl (sealed, s) ↦ record {
            key = key;
            derived = d;
            sealed = sealed;
            exported = s;
            is = ground (arith, d, h, s);
          }
        ]
      ]

  -- A sealed file opens, whatever recovery record it was given.
  pub seal-Opens :
      Hex host
      → Sealing host
      → (audience salt passphrase : Bytes) (identity : I) (file : IdentityFile)
      → (recovery : Option RecoveryRecord) → seal host audience identity salt passphrase ≡ ok file
      → Opens (record file { recovery = recovery }) passphrase identity
  seal-Opens hex sealing audience salt passphrase identity file recovery h =
      let s = seal-IsSeal audience salt passphrase identity file h in
      record {
        version = ap IdentityFile.version s.is;
        key = s.key;
        derived = ap (λ (f : IdentityFile). derive host f.kdf passphrase) s.is ∙ s.derived;
        sealed = s.sealed;
        decoded =
            ap (λ (f : IdentityFile). host.hex_decode f.sealed) s.is ∙ hex.decode_encode s.sealed;
        imported = sealing.import-export identity s.key s.sealed s.exported;
        published = sym (ap IdentityFile.public_key s.is);
      }

  generated_lem :
      (entropy : Bytes) (identity : I)
      → generated host entropy ≡ ok identity
      → host.generate entropy ≡ ok identity
  unfolding generated
  generated_lem entropy identity h = elim (Result-cases (host.generate entropy)) [
    | inl (found, g) ↦ ground (arith, g, h)
    | inr (e, g) ↦ absurd (ground (arith, g, h))
  ]

  -- A file sealed for the identity of this entropy.
  pub record IsMade (audience passphrase entropy : Bytes) (file : IdentityFile) : Type 0 where
    pub identity : I
    pub salt : Bytes
    pub generate : host.generate entropy ≡ ok identity
    pub made : seal host audience identity salt passphrase ≡ ok file

  pub create-IsMade :
      (audience passphrase : Bytes)
      → Hoare
          (λ w. Unit {0})
          (create host audience passphrase)
          (λ (p : IdentityFile × Bytes) v. IsMade audience passphrase p.1 p.0)
  unfolding create
  create-IsMade audience passphrase = Hoare-bind _ _ (Hoare-any _) λ entropy.
      Hoare-bind _ _ (Hoare-any _) λ salt. Hoare-bind _ _ (Hoare-lift _) λ identity.
        Hoare-bind _ _ (Hoare-lift _) λ file.
          Hoare-pure (file, entropy)
            (λ w h. record {
              identity = identity;
              salt = salt;
              generate = generated_lem entropy identity h.1.0;
              made = h.0;
            })

  pub from_entropy-IsMade :
      (audience entropy passphrase : Bytes)
      → Hoare
          (λ w. Unit {0})
          (from_entropy host audience entropy passphrase)
          (λ file v. IsMade audience passphrase entropy file)
  unfolding from_entropy
  from_entropy-IsMade audience entropy passphrase = Hoare-bind _ _ (Hoare-lift _) λ identity.
      Hoare-bind _ _ (Hoare-keep _) λ salt.
        Hoare-change _ (λ w h. h)
          (λ file v h. record {
            identity = identity;
            salt = salt;
            generate = generated_lem entropy identity h.1.0;
            made = h.0;
          })
          (Hoare-lift _)

  pub IsMade-Opens :
      Hex host
      → Sealing host
      → (audience passphrase entropy : Bytes) (file : IdentityFile)
        (recovery : Option RecoveryRecord)
      → (m : IsMade audience passphrase entropy file)
      → Opens (record file { recovery = recovery }) passphrase m.identity
        × (file.audience ≡ audience)
        × (file.public_key ≡ host.hex_encode (host.core.public_key m.identity))
  IsMade-Opens hex sealing audience passphrase entropy file recovery m =
      let s = seal-IsSeal audience m.salt passphrase m.identity file m.made in
      (
        seal-Opens hex sealing audience m.salt passphrase m.identity file recovery m.made,
        ap IdentityFile.audience s.is,
        ap IdentityFile.public_key s.is,
      )

  -- Where `create` returns a file and entropy, the file is at the audience, publishes the key of the
  -- identity generated from this entropy, and opens to that identity under the same passphrase,
  -- also after it was given a recovery record. `hex` decodes what it encoded, and the core unseals
  -- what it sealed.
  pub create-open_file :
      Hex host
      → Sealing host
      → (audience passphrase entropy : Bytes) (w v : World S) (file : IdentityFile)
      → create host audience passphrase w ≡ (returned (file, entropy), v)
      → (identity : I) × (host.generate entropy ≡ ok identity)
        × (file.audience ≡ audience)
        × (file.public_key ≡ host.hex_encode (host.core.public_key identity))
        × ((recovery : Option RecoveryRecord)
            → open_file host (record file { recovery = recovery }) passphrase ≡ ok identity)
  create-open_file hex sealing audience passphrase entropy w v file h =
      let m = (create-IsMade audience passphrase).at w v (file, entropy) tt h in
      let made = λ (r : Option RecoveryRecord).
        IsMade-Opens hex sealing audience passphrase entropy file r m in
      (
        m.identity,
        m.generate,
        (made none).1,
        (made none).2,
        λ r. (open_file_iff (record file { recovery = r }) passphrase m.identity).1 (made r).0,
      )
