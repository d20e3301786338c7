-- ===== src/Session/Revoked.antt =====
-- `UnlockedVaultSessionService`: what becomes of an authorization when the session is removed.
use engr_serverless_pm.Base.{◌≡◌, Bool, none, List, ◌++◌, ◌≤◌, ok, arith}
use engr_serverless_pm.Versioning.{VersionVector}
use engr_serverless_pm.Session.Types.{UnlockedVault}
use engr_serverless_pm.Session.Calls.{Event, Environment, generation_of}
use engr_serverless_pm.Session.Records.{
  remove_session_records, revoke_authorizations_and_remove_session_records,
}
use engr_serverless_pm.Session.Service.{
  VaultSessionActivationAuthorization, ActivatedSession, remove,
}
use engr_serverless_pm.Session.Activation.{activate}
use engr_serverless_pm.Session.Coordination.{generation_of-append, RunsAs, run_coordinated-RunsAs}
use engr_serverless_pm.Session.SingleUse.{activate-generation}

revoke-advances :
    (env : Environment) (h : List Event)
    → ¬ (generation_of (revoke_authorizations_and_remove_session_records env none h).1 ≡ 0)
unfolding revoke_authorizations_and_remove_session_records remove_session_records
revoke-advances env h e = ground arith

remove-advances :
    (env : Environment) (lease : Bool) (h : List Event)
    → (remove env lease h).0 ≡ ok tt
    → ¬ (generation_of (remove env lease h).1 ≡ 0)
unfolding remove
remove-advances env lease h removed none_advanced = of_run (
    run_coordinated-RunsAs env lease (revoke_authorizations_and_remove_session_records env none) h
      tt removed)
  where
    of_run :
        RunsAs
          (revoke_authorizations_and_remove_session_records env none)
          h
          tt
          (remove env lease h).1
        → ⊥
    of_run (before, after, plain, ended, given, calls) =
        let l = (revoke_authorizations_and_remove_session_records env none (before ++ h)).1 in
        let some_advanced = revoke-advances env (before ++ h) in
        let left = generation_of-append after (l ++ before) in
        let right = generation_of-append l before in ground arith

module _ (env : Environment) (a : VaultSessionActivationAuthorization) (lease again : Bool)
    (u : UnlockedVault) (source : VersionVector) (h k : List Event) (s : ActivatedSession) where
  -- An authorization of the present activation generation, or of an earlier one, no longer activates a
  -- session once the session's removal has succeeded, whatever was called in between.
  pub activate-IsRevoked :
      a.local_generation ≤ generation_of h
      → (remove env lease h).0 ≡ ok tt
      → ¬ ((activate env again a u source (k ++ ((remove env lease h).1 ++ h))).0 ≡ ok s)
  activate-IsRevoked issued removed activated =
      let l = (remove env lease h).1 in
      let current = activate-generation env a u source again (k ++ (l ++ h)) s activated in
      let grows = remove-advances env lease h removed in
      let sum = generation_of-append k (l ++ h) in
      let part = generation_of-append l h in ground arith
