-- ===== src/Session/FailsClosed.antt =====
-- `UnlockedVaultSessionService`: what a session that cannot be restored leaves behind.
use engr_serverless_pm.Base.{Error, Option, none, List, [], ◌∷◌, ◌++◌, Result, ok, err, ◌≡◌, arith}
use engr_serverless_pm.Base.Traces.{InOrder, InOrder-after, Throws, Refuses, Refuses-err}
use engr_serverless_pm.Session.Types.{UnlockedVaultSession, UnlockedVaultSessionMaterial}
use engr_serverless_pm.Session.Calls.{
  Event, Environment, epoch_advanced, material_removed, payload_removed,
}
use engr_serverless_pm.Session.Records.{
  Reconciled, or_revoke, restore_from, restore_after, find_material, restore_session,
  remove_session_records, revoke_authorizations_and_remove_session_records,
}

abbrev AdvancesEpoch : Event → Type 0
AdvancesEpoch (epoch_advanced r) = Unit
AdvancesEpoch _ = ⊥

abbrev RemovesMaterial : Event → Type 0
RemovesMaterial (material_removed r) = Unit
RemovesMaterial _ = ⊥

abbrev RemovesPayload : Event → Type 0
RemovesPayload (payload_removed r) = Unit
RemovesPayload _ = ⊥

-- Newest first: the shared epoch is advanced, then the material and the payload are removed.
abbrev pub IsRevoked : List Event → Type 0
IsRevoked l = InOrder (RemovesPayload ∷ RemovesMaterial ∷ AdvancesEpoch ∷ []) l

revoke-IsRevoked :
    (env : Environment) (m : Option UnlockedVaultSessionMaterial) (h : List Event)
    → IsRevoked (revoke_authorizations_and_remove_session_records env m h).1
unfolding revoke_authorizations_and_remove_session_records remove_session_records
revoke-IsRevoked env m h = ground arith

or_revoke-Throws :
    {A : Type 0} (env : Environment) (m : Option UnlockedVaultSessionMaterial) (r : Result A)
    → Throws IsRevoked (or_revoke env m r)
or_revoke-Throws env m (ok a) h = tt
or_revoke-Throws env m (err e) h = revoke-IsRevoked env m h

Refuses-after :
    {A : Type 0} (r : Result A) (k l : List Event)
    → Refuses IsRevoked r k
    → Refuses IsRevoked r (k ++ l)
Refuses-after (ok a) k l revoked = tt
Refuses-after (err e) k l revoked =
    InOrder-after (RemovesPayload ∷ RemovesMaterial ∷ AdvancesEpoch ∷ []) k l revoked

restore_after-Throws :
    (env : Environment) (found : Result Reconciled) → Throws IsRevoked (restore_after env found)
restore_after-Throws env (err e) h =
    or_revoke-Throws {A = Option UnlockedVaultSession} env none (err e) h
restore_after-Throws env (ok found) h =
    let run = restore_from env found.material h in
    let rest = or_revoke env found.material run.0 (run.1 ++ h) in
    Refuses-after rest.0 rest.1 run.1 (or_revoke-Throws env found.material run.0 (run.1 ++ h))

restore_session-Throws : (env : Environment) → Throws IsRevoked (restore_session env)
unfolding restore_session
restore_session-Throws env h =
    let run = find_material env h in
    let rest = restore_after env run.0 (run.1 ++ h) in
    Refuses-after rest.0 rest.1 run.1 (restore_after-Throws env run.0 (run.1 ++ h))

-- When reading the session throws, the shared epoch has been asked to advance first, then the removal
-- of the session's material was asked for and then that of its payload, whatever storage answers.
pub restore_session-IsRevoked :
    (env : Environment) (h : List Event) (e : Error)
    → (restore_session env h).0 ≡ err e
    → IsRevoked (restore_session env h).1
restore_session-IsRevoked env h e thrown =
    Refuses-err IsRevoked (restore_session env h).0 (restore_session env h).1 e
      (restore_session-Throws env h) thrown
