-- ===== src/Session/Commits.antt =====
-- `UnlockedVaultSessionService`: keeping the active session when its vault's snapshot is persisted.
use engr_serverless_pm.Base.{
  String, Bool, true, false, not, Option, none, some, Result, ok, err, if◌then◌else◌,
  unlocked_vault_session_expired,
}
use engr_serverless_pm.Base.Effects.{pure, throw, attempt, ◌>>=◌, ◌>>◌}
use engr_serverless_pm.Versioning.{VersionVector}
use engr_serverless_pm.Session.Types.{UnlockedVault, UnlockedVaultSessionMaterial}
use engr_serverless_pm.Session.Calls.{
  SessionInvalidationState, generation_advanced, material_wiped, replaced_material_wiped,
  Environment, Coordinated, invalidation_state, emit, advance_epoch,
}
use engr_serverless_pm.Session.Records.{
  throw_if, is_active_session, reconcile_active_material,
  revoke_authorizations_and_remove_session_records,
  revoke_authorizations_and_remove_session_records_preserving_root_cause, run_coordinated,
}
use engr_serverless_pm.Session.Service.{find_active}
use engr_serverless_pm.Session.Activation.{protect, persist_protected_session}

module _ (env : Environment) where
  abbrev commit_active :
      UnlockedVault → VersionVector → UnlockedVaultSessionMaterial → Coordinated (Unit {0})
  commit_active u source m = do
    p ← protect env u source (some m)
    persisted ← attempt (persist_protected_session env p >> advance_epoch env)
    elim persisted as (λ _. Coordinated (Unit {0})) [
      | ok _ ↦ do emit (replaced_material_wiped m p.material); emit generation_advanced
      | err e ↦ do emit (material_wiped p.material); throw e
    ]

  abbrev or_revoke_active : UnlockedVaultSessionMaterial → Result (Unit {0}) → Coordinated Bool
  or_revoke_active m (ok _) = pure true
  or_revoke_active m (err e) = do
    revoke_authorizations_and_remove_session_records_preserving_root_cause env (some m)
    throw e

  abbrev commit_if :
      UnlockedVault
      → VersionVector
      → String
      → SessionInvalidationState
      → Option UnlockedVaultSessionMaterial
      → Coordinated Bool
  commit_if u source session_id state none = pure false
  commit_if u source session_id state (some m) =
      if is_active_session state m session_id u.vault_id
      then (do committed ← attempt (commit_active u source m); or_revoke_active m committed)
      else pure false

  unfoldable pub commit_persisted_snapshot_if_session_is_active :
      Bool → String → UnlockedVault → VersionVector → Coordinated Bool
  unfolding reconcile_active_material protect persist_protected_session
      revoke_authorizations_and_remove_session_records
  commit_persisted_snapshot_if_session_is_active lease session_id u source =
      run_coordinated env lease do
        (identity, found) ← find_active env
        state ← invalidation_state
        commit_if u source session_id state found.material

  unfoldable pub commit_persisted_snapshot :
      Bool → String → UnlockedVault → VersionVector → Coordinated (Unit {0})
  unfolding commit_persisted_snapshot_if_session_is_active
  commit_persisted_snapshot lease session_id u source = do
    committed ← commit_persisted_snapshot_if_session_is_active lease session_id u source
    throw_if (not committed) (unlocked_vault_session_expired u.vault_id)
