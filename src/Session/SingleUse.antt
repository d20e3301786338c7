-- ===== src/Session/SingleUse.antt =====
-- `UnlockedVaultSessionService`: what an activation needs and what it uses up.
use engr_serverless_pm.Base.{
  Bool, true, false, any, Option, none, List, [], ◌∷◌, ◌++◌, ok, nat_eq, String, ◌≡◌, arith,
}
use engr_serverless_pm.Base.Traces.{Calls, Calls-after, Gives-ok}
use engr_serverless_pm.Versioning.{VersionVector}
use engr_serverless_pm.Session.Types.{UnlockedVault, UnlockedVaultSessionMaterial}
use engr_serverless_pm.Session.Calls.{Event, generation_advanced, Environment, generation_of}
use engr_serverless_pm.Session.Records.{Reconciled}
use engr_serverless_pm.Session.Coordination.{
  generation_of-append, generation_of-lease, RunsAs, run_coordinated-RunsAs,
}
use engr_serverless_pm.Session.Service.{
  VaultSessionActivationAuthorization, ActivatedSession, ProtectedSession,
}
use engr_serverless_pm.Session.Activation.{
  activate, protect_and_persist, start_session, use_authorization, activate_over, activate_session,
  activate_within_session_operation,
}

abbrev pub is_advance : Event → Bool
is_advance generation_advanced = true
is_advance _ = false

advanced_of_call : (l : List Event) → any is_advance l ≡ true → ¬ (generation_of l ≡ 0)
advanced_of_call [] called e = ground arith
advanced_of_call (e ∷ l) called z = let rest = advanced_of_call l in ground arith

module _ (env : Environment) (a : VaultSessionActivationAuthorization) (u : UnlockedVault)
    (source : VersionVector) (callback : Option String) where
  within-generation :
      (h : List Event) (s : ActivatedSession)
      → (activate_within_session_operation env a u source callback h).0 ≡ ok s
      → nat_eq a.local_generation (generation_of h) ≡ true
  unfolding activate_within_session_operation use_authorization
  within-generation h s e = ground arith

  started-Calls :
      (m : Option UnlockedVaultSessionMaterial) (p : ProtectedSession)
      → Calls is_advance (start_session env m p)
  started-Calls m p h = ground arith

  session-Calls :
      (m : Option UnlockedVaultSessionMaterial)
      → Calls is_advance (activate_session env u source m callback)
  unfolding activate_session
  session-Calls m =
      Calls-after is_advance (protect_and_persist env u source m callback) (start_session env m)
        (started-Calls m)

  over-Calls : (found : Reconciled) → Calls is_advance (activate_over env u source callback found)
  over-Calls found h = let g = session-Calls found.material h in ground arith

  within-Calls : Calls is_advance (activate_within_session_operation env a u source callback)
  unfolding activate_within_session_operation
  within-Calls =
      Calls-after is_advance (use_authorization env a u.vault_id)
        (activate_over env u source callback) over-Calls

module _ (env : Environment) (a : VaultSessionActivationAuthorization) (u : UnlockedVault)
    (source : VersionVector) where
  activate-RunsAs :
      (lease : Bool) (h : List Event) (s : ActivatedSession)
      → (activate env lease a u source h).0 ≡ ok s
      → RunsAs
          (activate_within_session_operation env a u source none)
          h
          s
          (activate env lease a u source h).1
  unfolding activate
  activate-RunsAs lease h s e =
      run_coordinated-RunsAs env lease (activate_within_session_operation env a u source none) h s e

  pub activate-generation :
      (lease : Bool) (h : List Event) (s : ActivatedSession)
      → (activate env lease a u source h).0 ≡ ok s
      → a.local_generation ≡ generation_of h
  activate-generation lease h s e =
      let (before, after, plain, _, given, _) = activate-RunsAs lease h s e in
      let current = within-generation env a u source none (before ++ h) s given in
      let same = generation_of-lease before h plain in ground arith

  activate-advances :
      (lease : Bool) (h : List Event) (s : ActivatedSession)
      → (activate env lease a u source h).0 ≡ ok s
      → ¬ (generation_of (activate env lease a u source h).1 ≡ 0)
  activate-advances lease h s e none_advanced =
      let (before, after, plain, _, given, calls) = activate-RunsAs lease h s e in
      let l = (activate_within_session_operation env a u source none (before ++ h)).1 in
      let some_advanced = advanced_of_call l (
        Gives-ok (λ _ l. any is_advance l ≡ true)
          (activate_within_session_operation env a u source none (before ++ h)).0 l s
          (within-Calls env a u source none (before ++ h)) given) in
      let left = generation_of-append after (l ++ before) in
      let right = generation_of-append l before in ground arith

module _ (env : Environment) (a : VaultSessionActivationAuthorization) (lease again : Bool)
    (u v : UnlockedVault) (source target : VersionVector) (h k : List Event)
    (s t : ActivatedSession) where
  -- After an activation that succeeded, no later one with the same authorization succeeds, whatever was
  -- called in between, for whichever vault and however the lease is held.
  pub activate-IsSingleUse :
      (activate env lease a u source h).0 ≡ ok s
      → ¬ (
          (activate env again a v target (k ++ ((activate env lease a u source h).1 ++ h))).0
          ≡ ok t)
  activate-IsSingleUse first second =
      let l = (activate env lease a u source h).1 in
      let before = activate-generation env a u source lease h s first in
      let after = activate-generation env a v target again (k ++ (l ++ h)) t second in
      let grows = activate-advances env a u source lease h s first in
      let sum = generation_of-append k (l ++ h) in
      let part = generation_of-append l h in ground arith
