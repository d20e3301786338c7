-- ===== src/Session/Rollbacks.antt =====
-- `UnlockedVaultSessionService`: activation with an automatic lock, restoring a persisted state, and
-- discarding a session.
use engr_serverless_pm.Base.{
  ℕ, String, Bool, true, false, not, ◌||◌, any, nat_eq, Option, none, some, List, Result, ok, err,
  if◌then◌else◌, ◌==◌,
}
use engr_serverless_pm.Base.Effects.{pure, throw, attempt, observe, ◌>>=◌, ◌>>◌}
use engr_serverless_pm.Versioning.{VersionVector, compare_version_vectors}
use engr_serverless_pm.Snapshot.{is_equal}
use engr_serverless_pm.Session.Types.{UnlockedVault, UnlockedVaultSessionMaterial}
use engr_serverless_pm.Session.Calls.{
  SessionIdentity, Event, generation_advanced, identity_read, called_back, Environment, Coordinated,
  activation_generation, invalidation_state, emit, advance_epoch, call_back,
}
use engr_serverless_pm.Session.Records.{
  Reconciled, reconcile_active_material, revoke_authorizations_and_remove_session_records,
  revoke_authorizations_and_remove_session_records_preserving_root_cause, run_coordinated,
}
use engr_serverless_pm.Session.Service.{
  VaultSessionActivationAuthorization, ActivatedSession, RestoreResult, restored, session_advanced,
  rollback_failed, DiscardResult, discarded, advanced, session_replaced, session_unavailable,
  discard_failed, is_active, identity_advanced, material_advanced, find_active,
}
use engr_serverless_pm.Session.Activation.{activate_within_session_operation}

abbrev is_identity_read : Event → Bool
is_identity_read (identity_read _) = true
is_identity_read _ = false

abbrev is_callback : Event → Bool
is_callback (called_back _ _) = true
is_callback _ = false

abbrev is_replaced : SessionIdentity → String → String → Bool
is_replaced i session_id vault_id = not (i.session_id == session_id) || not (i.vault_id == vault_id)

-- Why there is nothing to discard, for a session that is persisted.
abbrev pub refusal :
    String → String → ℕ → VersionVector → SessionIdentity → ℕ → Bool → Option DiscardResult
refusal session_id vault_id generation source i current active =
    if is_replaced i session_id vault_id
    then some session_replaced
    else if not (is_equal (compare_version_vectors i.source_snapshot_version_vector source))
    then some advanced
    else if not (nat_eq generation current)
    then some advanced
    else if not active
    then some session_unavailable
    else none

module _ (env : Environment) where
  abbrev roll_back_lock : Bool → Coordinated (Unit {0})
  roll_back_lock false = pure tt
  roll_back_lock true = do ignored ← attempt (call_back env "rollbackAutoLock"); pure tt

  abbrev or_roll_back_lock : Result ActivatedSession → List Event → Coordinated ActivatedSession
  or_roll_back_lock (ok a) calls = pure a
  or_roll_back_lock (err e) calls = do roll_back_lock (any is_callback calls); throw e

  -- `activationPreparationStarted` is whether the callback was called.
  unfoldable pub activate_with_auto_lock :
      Bool
      → VaultSessionActivationAuthorization
      → UnlockedVault
      → VersionVector
      → Coordinated ActivatedSession
  unfolding activate_within_session_operation
  activate_with_auto_lock lease authorization u source = run_coordinated env lease do
    (activated, calls) ←
        observe
          (activate_within_session_operation env authorization u source (some "installAutoLock"))
    or_roll_back_lock activated calls

  abbrev advance_if_absent : Option UnlockedVaultSessionMaterial → Coordinated (Unit {0})
  advance_if_absent (some m) = pure tt
  advance_if_absent none = do advance_epoch env; emit generation_advanced

  abbrev revoke_if_active : Option UnlockedVaultSessionMaterial → Bool → Coordinated (Unit {0})
  revoke_if_active material false = pure tt
  revoke_if_active material true =
      revoke_authorizations_and_remove_session_records_preserving_root_cause env material

  abbrev restored_or_failed :
      Option UnlockedVaultSessionMaterial
      → String
      → String
      → Result (Unit {0})
      → Coordinated RestoreResult
  restored_or_failed material session_id vault_id (ok _) = pure restored
  restored_or_failed material session_id vault_id (err e) = do
    state ← invalidation_state
    revoke_if_active material (is_active state material session_id vault_id)
    pure rollback_failed

  abbrev restore_advanced :
      Option UnlockedVaultSessionMaterial
      → String
      → String
      → Result (Unit {0})
      → Coordinated RestoreResult
  restore_advanced material session_id vault_id (err e) = pure rollback_failed
  restore_advanced material session_id vault_id (ok _) = do
    reply ← attempt (call_back env "restore")
    restored_or_failed material session_id vault_id reply

  abbrev restore_unless :
      Bool → String → String → Option UnlockedVaultSessionMaterial → Coordinated RestoreResult
  restore_unless true session_id vault_id material = pure session_advanced
  restore_unless false session_id vault_id material = do
    prepared ← attempt (advance_if_absent material)
    restore_advanced material session_id vault_id prepared

  abbrev restore_if :
      String
      → String
      → VersionVector
      → Result (Option SessionIdentity × Reconciled)
      → Coordinated RestoreResult
  restore_if session_id vault_id source (err e) = pure rollback_failed
  restore_if session_id vault_id source (ok (identity, found)) = do
    state ← invalidation_state
    restore_unless
        (found.reconciled
          || identity_advanced identity found.material session_id vault_id source
          || material_advanced state found.material session_id vault_id source)
        session_id vault_id found.material

  abbrev started_or_failed : Result RestoreResult → List Event → Coordinated RestoreResult
  started_or_failed (ok result) calls = pure result
  started_or_failed (err e) calls =
      if any is_identity_read calls then throw e else pure rollback_failed

  -- `operationStarted` is whether the operation made its first call.
  unfoldable pub restore_persisted_state :
      Bool → String → String → VersionVector → Coordinated RestoreResult
  unfolding reconcile_active_material revoke_authorizations_and_remove_session_records
  restore_persisted_state lease session_id vault_id source = do
    (result, calls) ← observe (
        run_coordinated env lease
          do found ← attempt (find_active env); restore_if session_id vault_id source found)
    started_or_failed result calls

  abbrev failed_reply : Result (Unit {0}) → Bool
  failed_reply (ok _) = false
  failed_reply (err e) = true

  -- The answer false of `discard` and its rejection have one outcome: both are an error here.
  abbrev discard_after : Bool → Result (Unit {0}) → Coordinated DiscardResult
  discard_after cleanup_failed (err e) = pure discard_failed
  discard_after true (ok _) = pure discard_failed
  discard_after false (ok _) = do
    reply ← attempt (call_back env "discard")
    pure (if failed_reply reply then discard_failed else discarded)

  unfoldable pub discard_active : Option UnlockedVaultSessionMaterial → Coordinated DiscardResult
  unfolding revoke_authorizations_and_remove_session_records
  discard_active material = do
    cleaned ← attempt (call_back env "beforeRemoval")
    removed ← attempt (revoke_authorizations_and_remove_session_records env material)
    discard_after (failed_reply cleaned) removed

  abbrev pub discard_unless :
      Option DiscardResult → Option UnlockedVaultSessionMaterial → Coordinated DiscardResult
  discard_unless (some answer) material = pure answer
  discard_unless none material = discard_active material

  abbrev pub discard_of :
      String
      → String
      → ℕ
      → VersionVector
      → Option SessionIdentity
      → Reconciled
      → Coordinated DiscardResult
  discard_of session_id vault_id generation source none found = do
    current ← activation_generation
    pure (if nat_eq generation current then session_unavailable else session_replaced)
  discard_of session_id vault_id generation source (some i) found = do
    current ← activation_generation
    state ← invalidation_state
    discard_unless
        (refusal session_id vault_id generation source i current
          (is_active state found.material session_id vault_id))
        found.material

  abbrev pub discard_if :
      String
      → String
      → ℕ
      → VersionVector
      → Result (Option SessionIdentity × Reconciled)
      → Coordinated DiscardResult
  discard_if session_id vault_id generation source (err e) = pure advanced
  discard_if session_id vault_id generation source (ok (identity, found)) =
      discard_of session_id vault_id generation source identity found

  unfoldable pub discard_if_session_is_active :
      Bool → String → String → ℕ → VersionVector → Coordinated DiscardResult
  unfolding reconcile_active_material discard_active
  discard_if_session_is_active lease session_id vault_id generation source =
      run_coordinated env lease
        do found ← attempt (find_active env); discard_if session_id vault_id generation source found
