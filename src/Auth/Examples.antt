-- ===== src/Auth/Examples.antt =====
-- The theorems about logins, step-ups and replays at concrete inputs.
mod Grants
mod Layouts
mod Texts
use aethel_runtime.Base.{
  ℕ, ◌+◌, ◌≤◌, ◌≡◌, refl, sym, ap, ◌∙◌, ◌≢◌, inl, true, none, [], ◌∷◌, arith, length, ok,
}
use aethel_runtime.Base.Bytes.{Bytes, replicate}
use aethel_runtime.Auth.Nonce.{new, in_memory, find, claim, evict_expired}
use aethel_runtime.Auth.Envelope.{nonce_skew_secs}
use aethel_runtime.Auth.Login.{verify_login_inner, identity_of}
use aethel_runtime.Auth.Login
use aethel_runtime.Auth.Login.Verdict.{
  IsGenuine, verify_login_inner-claims, verify_login_inner-accepts, verify_login_inner-writes,
}
use aethel_runtime.Auth.StepUp
use aethel_runtime.Auth.StepUp.{verify_step_up}
use aethel_runtime.Auth.StepUp.Verdict
use aethel_runtime.Auth.StepUp.Verdict.{verify_step_up-accepts}
use aethel_runtime.Auth.Delegation
use aethel_runtime.Auth.Delegation.Verdict.{Stands, IsLive}
use aethel_runtime.Auth.Approval
use aethel_runtime.Auth.Approval.{check_approval, auth_approval_v1}
use aethel_runtime.Auth.Approval.Verdict.{Approves, check_approval-accepts}
use aethel_runtime.Auth.Service.{Event, run}
use aethel_runtime.Auth.Replay.{login_no_replay, approval_no_replay}
use aethel_runtime.Auth.Replay.Skew.{replay_at_full_skew}
use aethel_runtime.Auth.Toy.{
  toy, sealed-verifies, alice, at_time, window, nobody, login_proof, step_up_proof, delegation,
  request, approval,
}

IsGenuine-login : (now : ℕ) → 1000 ≤ now → now ≤ 4600 → IsGenuine toy login_proof (at_time now) none
unfolding Login.signing_input
IsGenuine-login now h k = record {
  key_present = refl;
  signature_present = refl;
  envelope = window now h k;
  digest = refl;
  signed = sealed-verifies alice toy.auth_login_v1 (Login.signing_input login_proof);
}

claims_new : (k : Bytes) (e : ℕ) → (in_memory.claim new k e).0 ≡ ok true
unfolding claim find
claims_new k e = refl

verify_login_inner-accepts_example :
    (verify_login_inner toy in_memory login_proof (at_time 1200) none new).0
    ≡ ok (identity_of login_proof)
verify_login_inner-accepts_example =
    (verify_login_inner-accepts toy in_memory login_proof (at_time 1200) none new
        (identity_of login_proof)).1
      (IsGenuine-login 1200 (omega arith) (omega arith), claims_new _ _, refl)

accepted_login :
    (verify_login_inner toy in_memory login_proof (at_time 1200) none new).0
    ≡ ok (identity_of login_proof)
accepted_login =
    (verify_login_inner-accepts toy in_memory login_proof (at_time 1200) none new
        (identity_of login_proof)).1
      (IsGenuine-login 1200 (omega arith) (omega arith), claims_new _ _, refl)

login_no_replay_example :
    (verify_login_inner toy in_memory login_proof (at_time 1300) none (
      run toy
        (verify_login_inner toy in_memory login_proof (at_time 1200) none new).1
        (Event.evicts 1599 ∷ []))).0
    ≢ ok (identity_of login_proof)
login_no_replay_example =
    login_no_replay toy login_proof login_proof (at_time 1200) (at_time 1300) none none new
      (Event.evicts 1599 ∷ []) (identity_of login_proof) (identity_of login_proof) refl refl refl
      refl accepted_login (omega arith, tt)

replay_at_full_skew_example :
    (verify_login_inner toy in_memory login_proof (at_time 4600) none (
      evict_expired
        (verify_login_inner toy in_memory login_proof (at_time 1200) none new).1
        (4600 + nonce_skew_secs))).0
    ≡ ok (identity_of login_proof)
unfolding find
replay_at_full_skew_example =
    replay_at_full_skew toy login_proof (at_time 1200) (at_time 4600) none none new
      (IsGenuine-login 1200 (omega arith) (omega arith))
      (IsGenuine-login 4600 (omega arith) (omega arith)) refl (omega arith) refl

writes : (verify_login_inner toy in_memory login_proof (at_time 1200) none new).1 ≢ new
unfolding claim find
writes h =
    let after =
      verify_login_inner-claims toy in_memory login_proof (at_time 1200) none new
        (identity_of login_proof) accepted_login in
    let sizes : 1 ≡ 0 = ap (λ s. length s.seen) (sym after ∙ h) in omega (arith, sizes)

verify_login_inner-writes_example : IsGenuine toy login_proof (at_time 1200) none
verify_login_inner-writes_example =
    verify_login_inner-writes toy in_memory login_proof (at_time 1200) none new writes

verify_step_up-accepts_example :
    (verify_step_up toy in_memory step_up_proof (at_time 1200) (replicate 32 1) new).0
    ≡ ok (StepUp.identity_of step_up_proof)
unfolding StepUp.signing_input
verify_step_up-accepts_example =
    (verify_step_up-accepts toy in_memory step_up_proof (at_time 1200) (replicate 32 1) new
        (StepUp.identity_of step_up_proof)).1
      (
        record {
          key_present = refl;
          signature_present = refl;
          envelope = window 1200 (omega arith) (omega arith);
          action = refl;
          signed = sealed-verifies alice toy.auth_step_up_v1 (StepUp.signing_input step_up_proof);
        },
        claims_new _ _,
        refl,
      )

delegation-Stands : Stands delegation (alice ∷ []) nobody
delegation-Stands = record {
  recognised = inl refl;
  principal_stands = refl;
  delegate_stands = refl;
}

delegation-IsLive : IsLive toy delegation (at_time 1200).expected_audience 1200
unfolding Delegation.signing_input
delegation-IsLive = record {
  principal_present = refl;
  delegate_present = refl;
  signature_present = refl;
  audience_present = refl;
  for_us = refl;
  started = omega arith;
  not_ended = omega arith;
  signed = sealed-verifies alice toy.auth_delegation_v1 (Delegation.signing_input delegation);
}

approves : Approves toy delegation approval (at_time 1200) (alice ∷ []) nobody request
unfolding Approval.signing_input
approves = record {
  stands = delegation-Stands;
  live = delegation-IsLive;
  key_present = refl;
  signature_present = refl;
  by_principal = refl;
  envelope = window 1200 (omega arith) (omega arith);
  this_delegation = refl;
  this_request = refl;
  this_action = refl;
  this_amount = refl;
  signed = sealed-verifies alice auth_approval_v1 (Approval.signing_input approval);
}

accepted_approval :
    (check_approval toy in_memory delegation approval
      (at_time 1200)
      (alice ∷ [])
      nobody
      request
      new).0
    ≡ ok tt
accepted_approval =
    (check_approval-accepts toy in_memory delegation approval (at_time 1200) (alice ∷ []) nobody
        request new).1
      (approves, claims_new _ _)

check_approval-accepts_example :
    (check_approval toy in_memory delegation approval
      (at_time 1200)
      (alice ∷ [])
      nobody
      request
      new).0
    ≡ ok tt
check_approval-accepts_example =
    (check_approval-accepts toy in_memory delegation approval (at_time 1200) (alice ∷ []) nobody
        request new).1
      (approves, claims_new _ _)

approval_no_replay_example :
    (check_approval toy in_memory delegation approval (at_time 1300) (alice ∷ []) nobody request (
      run toy
        (check_approval toy in_memory delegation approval
          (at_time 1200)
          (alice ∷ [])
          nobody
          request
          new).1
        (Event.evicts 1599 ∷ []))).0
    ≢ ok tt
approval_no_replay_example =
    approval_no_replay toy delegation approval (at_time 1200) (at_time 1300) (alice ∷ [])
      (alice ∷ []) nobody nobody request request new (Event.evicts 1599 ∷ []) accepted_approval
      (omega arith, tt)
