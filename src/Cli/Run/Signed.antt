-- ===== src/Cli/Run/Signed.antt =====
-- crates/aethel-auth-cli/src/main.rs: the audience and the signer of what is printed.
use aethel_runtime.Base.{ℕ, ◌≡◌, refl, subst, some, Result, ok, err}
use aethel_runtime.Base.Bytes.{Bytes}
use aethel_runtime.Auth.Login
use aethel_runtime.Auth.StepUp
use aethel_runtime.Auth.Delegation
use aethel_runtime.Auth.Login.{LoginProof}
use aethel_runtime.Auth.StepUp.{StepUpProof}
use aethel_runtime.Auth.Delegation.{Bounds, Delegation}
use aethel_runtime.Auth.Statements.{Revocation, Succession, revocation_input, succession_input}
use aethel_runtime.Auth.Holder.{
  Holder, ok_or_panic, with_signature, build_login, delegate_to, revoke_self, revoke_as_authority,
  name_successor,
}
use aethel_runtime.Auth.Holder
use aethel_runtime.Cli.Host.{
  Host, Statement, login_proof, step_up_proof, delegated, revoked, succeeded, IdentityFile,
}
use aethel_runtime.Cli.Run.{holder_of}

-- The audience and the signer's key of a statement.
abbrev pub audience_of : Statement → Bytes
audience_of (login_proof p) = p.audience
audience_of (step_up_proof p) = p.audience
audience_of (delegated d) = d.audience
audience_of (revoked r) = r.audience
audience_of (succeeded s) = s.audience

abbrev pub signer_of : Statement → Bytes
signer_of (login_proof p) = p.public_key
signer_of (step_up_proof p) = p.public_key
signer_of (delegated d) = d.principal_key
signer_of (revoked r) = r.signer_key
signer_of (succeeded s) = s.from_key

abbrev pub signature_of : Statement → Bytes
signature_of (login_proof p) = p.signature
signature_of (step_up_proof p) = p.signature
signature_of (delegated d) = d.signature
signature_of (revoked r) = r.signature
signature_of (succeeded s) = s.signature

-- The bytes that a statement's signature is over.
abbrev pub signed_bytes : Statement → Bytes
signed_bytes (login_proof p) = Login.signing_input p
signed_bytes (step_up_proof p) = StepUp.signing_input p
signed_bytes (delegated d) = Delegation.signing_input d
signed_bytes (revoked r) = revocation_input r
signed_bytes (succeeded s) = succession_input s

-- A signed statement is what was built, with the signature that the signer gave.
with_signature-ok :
    {A E : Type 0} (f : Bytes → A) (r : Result E Bytes) (a : A)
    → with_signature f (ok_or_panic r) ≡ some a
    → (s : Bytes) × (r ≡ ok s) × (f s ≡ a)
with_signature-ok f (err e) a h = absurd (cc)
with_signature-ok f (ok s) a h = (s, refl, cc)

module _ {E I S : Type 0} (host : Host E I S) where
  -- The purpose that each kind of statement is signed under.
  abbrev pub purpose_of : Statement → Bytes
  purpose_of (login_proof p) = host.core.auth_login_v1
  purpose_of (step_up_proof p) = host.core.auth_step_up_v1
  purpose_of (delegated d) = host.core.auth_delegation_v1
  purpose_of (revoked r) = host.core.auth_revocation_v1
  purpose_of (succeeded s) = host.core.auth_succession_v1

  -- A statement at the file's audience, in the name of the key that the file publishes, whose signature
  -- is the one that the identity of this key gives for the statement's bytes under its purpose.
  pub record By (file : IdentityFile) (value : Statement) : Type 0 where
    pub identity : I
    pub published : host.hex_encode (host.core.public_key identity) ≡ file.public_key
    pub audience : audience_of value ≡ file.audience
    pub signer : signer_of value ≡ host.core.public_key identity
    pub signed :
        host.core.sign_with_purpose identity (purpose_of value) (signed_bytes value)
        ≡ ok (signature_of value)

  pub login-By :
      (file : IdentityFile) (id : I) (nonce : Bytes) (time valid_for : ℕ) (p : LoginProof)
      → host.hex_encode (host.core.public_key id) ≡ file.public_key
      → Holder.login host.core (holder_of host file id) nonce time valid_for ≡ some p
      → By file (login_proof p)
  unfolding Holder.login build_login Holder.sign Login.signing_input
  login-By file id nonce time valid_for p published h =
      let (s, signed, is) = with_signature-ok _ _ p h in
      subst (λ (q : LoginProof). By file (login_proof q)) is
        (record {
          identity = id;
          published = published;
          audience = refl;
          signer = refl;
          signed = signed;
        })

  pub step_up-By :
      (file : IdentityFile) (id : I) (nonce : Bytes) (time valid_for : ℕ) (digest : Bytes)
      (p : StepUpProof)
      → host.hex_encode (host.core.public_key id) ≡ file.public_key
      → Holder.step_up host.core (holder_of host file id) nonce time valid_for digest ≡ some p
      → By file (step_up_proof p)
  unfolding Holder.step_up Holder.sign StepUp.signing_input
  step_up-By file id nonce time valid_for digest p published h =
      let (s, signed, is) = with_signature-ok _ _ p h in
      subst (λ (q : StepUpProof). By file (step_up_proof q)) is
        (record {
          identity = id;
          published = published;
          audience = refl;
          signer = refl;
          signed = signed;
        })

  pub delegate_to-By :
      (file : IdentityFile) (id : I) (key : Bytes) (bounds : Bounds) (start end : ℕ)
      (p : Delegation)
      → host.hex_encode (host.core.public_key id) ≡ file.public_key
      → delegate_to host.core (holder_of host file id) key bounds start end ≡ some p
      → By file (delegated p)
  unfolding delegate_to Holder.sign Delegation.signing_input
  delegate_to-By file id key bounds start end p published h =
      let (s, signed, is) = with_signature-ok _ _ p h in
      subst (λ (q : Delegation). By file (delegated q)) is
        (record {
          identity = id;
          published = published;
          audience = refl;
          signer = refl;
          signed = signed;
        })

  pub revoke_self-By :
      (file : IdentityFile) (id : I) (time : ℕ) (p : Revocation)
      → host.hex_encode (host.core.public_key id) ≡ file.public_key
      → revoke_self host.core (holder_of host file id) time ≡ some p
      → By file (revoked p)
  unfolding revoke_self Holder.sign revocation_input
  revoke_self-By file id time p published h =
      let (s, signed, is) = with_signature-ok _ _ p h in
      subst (λ (q : Revocation). By file (revoked q)) is
        (record {
          identity = id;
          published = published;
          audience = refl;
          signer = refl;
          signed = signed;
        })

  pub revoke_as_authority-By :
      (file : IdentityFile) (id : I) (subject : Bytes) (time : ℕ) (p : Revocation)
      → host.hex_encode (host.core.public_key id) ≡ file.public_key
      → revoke_as_authority host.core id subject file.audience time ≡ some p
      → By file (revoked p)
  unfolding revoke_as_authority Holder.sign revocation_input
  revoke_as_authority-By file id subject time p published h =
      let (s, signed, is) = with_signature-ok _ _ p h in
      subst (λ (q : Revocation). By file (revoked q)) is
        (record {
          identity = id;
          published = published;
          audience = refl;
          signer = refl;
          signed = signed;
        })

  pub name_successor-By :
      (file : IdentityFile) (id : I) (key : Bytes) (time : ℕ) (p : Succession)
      → host.hex_encode (host.core.public_key id) ≡ file.public_key
      → name_successor host.core (holder_of host file id) key time ≡ some p
      → By file (succeeded p)
  unfolding name_successor Holder.sign succession_input
  name_successor-By file id key time p published h =
      let (s, signed, is) = with_signature-ok _ _ p h in
      subst (λ (q : Succession). By file (succeeded q)) is
        (record {
          identity = id;
          published = published;
          audience = refl;
          signer = refl;
          signed = signed;
        })
