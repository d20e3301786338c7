-- ===== src/Guard/Uploads.antt =====
-- Tracked uploads of `VaultSyncGuardService`: the marker of the upload is saved, the upload is
-- started, and the marker is cleared once the provider says that it committed.
pub mod WrittenAhead
pub mod Retried
pub mod Restaged
pub mod RolledBack
pub mod Completed
pub mod Reported
pub mod Staged
pub mod Quiet
use engr_serverless_pm.Base.{
  String, Bool, true, false, not, ◌&&◌, ◌||◌, any, Option, none, some, List, Error, Result, ok, err,
  if◌then◌else◌, ◌==◌, remote_vault_snapshot_changed, sync_conflict_detected,
  persisted_vault_rollback_incomplete,
}
use engr_serverless_pm.Base.Effects.{Effect, pure, throw, attempt, observe, lift, ◌>>=◌, ◌>>◌}
use engr_serverless_pm.Versioning.{VersionVector}
use engr_serverless_pm.Snapshot.{
  SerializedEncrypted, VaultSnapshot, VaultSnapshotIdentity, to_vault_snapshot_descriptor,
}
use engr_serverless_pm.Trust.{LocalVaultTrustCheckpoint}
use engr_serverless_pm.Session.Types.{UnlockedVault}
use engr_serverless_pm.Guard.Types.{
  SyncAccess, SyncUploadStatus, complete, pending, PendingSnapshotUpload, SaveRequest,
}
use engr_serverless_pm.Guard.Outcome.{
  ProviderValue, outcome_unknown, outcome_value, resolve_non_started_sync_provider_upload_outcome,
  resolve_sync_provider_upload_status,
}
use engr_serverless_pm.Guard.Calls.{
  Event, upload_started, Environment, Guarded, PreparedSyncUpload, ready, not_started,
  PreparedSyncRemoval, already_absent, RestoreDecision, proceed, session_advanced, rollback_failed,
  prepare_vault_snapshot_upload, start_upload, upload_outcome, prepare_vault_snapshot_removal,
  start_removal, removal_outcome, decide_restore, leave_session,
  save_vault_snapshot_with_checkpoint,
}
use engr_serverless_pm.Guard.Credentials.{
  Persisted, StagedIntent, StagedUpload, already_pending, staged, RestagedIntent, with_active_key,
  require_sync_credential_state, try_replace_sync_credential_state,
  try_clear_pending_snapshot_upload, encrypt_without_pending, encrypt_state, is_same_pending,
  stage_pending_snapshot_upload, restage_pending_snapshot_upload, run_for_active_session,
}

-- The parameters that the uploads share.
pub record Upload : Type 0 where
  pub session_id : String
  pub vault_id : String
  pub unlocked_vault : UnlockedVault
  pub sync_access : SyncAccess
  pub persisted : Persisted
  pub expected_remote : Option VaultSnapshotIdentity

-- `PreparedLocalVaultSnapshotRestore` of the snapshot service
pub record PreparedRestore : Type 0 where
  pub snapshot : VaultSnapshot
  pub checkpoint : LocalVaultTrustCheckpoint
  pub sync_credential_state : Option SerializedEncrypted

pub data RollbackResult : Type 0 where
  restored not_restored rollback_incomplete : RollbackResult

abbrev pub marker_of : Upload → PendingSnapshotUpload
marker_of u = record {
  candidate_snapshot_identity = record {
    descriptor = to_vault_snapshot_descriptor u.vault_id u.persisted.snapshot;
    snapshot_digest = u.persisted.snapshot_digest;
  };
  expected_remote_snapshot_identity = u.expected_remote;
}

abbrev pub is_start : Event → Bool
is_start (upload_started _) = true
is_start _ = false

abbrev pub or_unknown : Result ProviderValue → ProviderValue
or_unknown (ok value) = value
or_unknown (err thrown) = outcome_value outcome_unknown

abbrev pub cleared_status : Result Bool → SyncUploadStatus
cleared_status (ok true) = complete
cleared_status _ = pending

abbrev pub is_changed_remotely : Error → Bool
is_changed_remotely (remote_vault_snapshot_changed _) = true
is_changed_remotely _ = false

abbrev or_false : Result Bool → Bool
or_false (ok b) = b
or_false (err thrown) = false

-- `restorePreparedLocalVaultSnapshot` of the snapshot service
abbrev pub restoring : PreparedRestore → Persisted → SerializedEncrypted → SaveRequest
restoring r p expected = record {
  expected_snapshot_digest = p.snapshot_digest;
  expected_checkpoint = p.checkpoint;
  expected_sync_credential_state = some expected;
  snapshot = r.snapshot;
  checkpoint = r.checkpoint;
  sync_credential_state = r.sync_credential_state;
}

abbrev restored_or_failed : Result (Unit {0}) → RollbackResult
restored_or_failed (ok _) = restored
restored_or_failed (err _) = rollback_incomplete

-- What is thrown once the rollback is done.
abbrev pub thrown_after : Upload → Error → RollbackResult → Error
thrown_after u thrown rollback_incomplete = persisted_vault_rollback_incomplete u.vault_id thrown
thrown_after u thrown _ =
    if is_changed_remotely thrown then sync_conflict_detected u.vault_id else thrown

module _ (env : Environment) where
  -- After `start` was called or not: an error counts as an unknown outcome only after the call, which
  -- the code keeps in `startInvoked`.
  abbrev pub after_start : Result (Unit {0}) → List Event → Guarded ProviderValue
  after_start (err thrown) calls =
      if any is_start calls then pure (outcome_value outcome_unknown) else throw thrown
  after_start (ok _) calls = do outcome ← attempt (upload_outcome env); pure (or_unknown outcome)

  unfoldable pub start_prepared_upload : String → String → String → Guarded ProviderValue
  start_prepared_upload session_id vault_id operation = do
    (started, calls) ←
        observe (run_for_active_session env session_id vault_id operation (λ _. start_upload env))
    after_start started calls

  abbrev pub outcome_of : Upload → String → PreparedSyncUpload → Guarded ProviderValue
  outcome_of u operation (not_started value) =
      pure (outcome_value (resolve_non_started_sync_provider_upload_outcome value))
  outcome_of u operation ready = start_prepared_upload u.session_id u.vault_id operation

  -- Preparing, starting and waiting for an upload.
  unfoldable pub perform_upload : Upload → String → Guarded SyncUploadStatus
  unfolding start_prepared_upload
  perform_upload u operation = do
    prepared ←
        prepare_vault_snapshot_upload env u.sync_access u.persisted.snapshot u.expected_remote
    value ← outcome_of u operation prepared
    lift (resolve_sync_provider_upload_status u.vault_id value)

  abbrev pub finish_upload :
      Upload → String → StagedIntent → SyncUploadStatus → Guarded SyncUploadStatus
  finish_upload u operation intent pending = pure pending
  finish_upload u operation intent complete = do
    cleared ← attempt (
        run_for_active_session env u.session_id u.vault_id operation
          (λ _. try_clear_pending_snapshot_upload env u.persisted intent))
    pure (cleared_status cleared)

  unfoldable pub upload_staged : Upload → StagedIntent → Guarded SyncUploadStatus
  unfolding perform_upload try_replace_sync_credential_state
  upload_staged u intent = do
    status ← perform_upload u "start a snapshot upload"
    finish_upload u "clear a completed snapshot upload" intent status

  unfoldable pub stage_upload : Upload → Guarded StagedUpload
  unfolding stage_pending_snapshot_upload
  stage_upload u =
      run_for_active_session env u.session_id u.vault_id "stage a snapshot upload" (λ active.
        stage_pending_snapshot_upload env u.vault_id (with_active_key u.unlocked_vault active)
          u.persisted (marker_of u))

  abbrev pub upload_after : Upload → StagedUpload → Guarded SyncUploadStatus
  upload_after u already_pending = pure pending
  upload_after u (staged intent) = upload_staged u intent

  unfoldable pub upload_tracked_snapshot : Upload → Guarded SyncUploadStatus
  unfolding stage_upload upload_staged
  upload_tracked_snapshot u = do outcome ← stage_upload u; upload_after u outcome

  abbrev pub restore_failed : Upload → RestagedIntent → Error → Guarded SyncUploadStatus
  restore_failed u restaged thrown = do
    attempt (
          run_for_active_session env u.session_id u.vault_id
            "restore a failed pending snapshot upload"
            (λ _.
              try_replace_sync_credential_state env u.persisted restaged.intent.pending
                restaged.previous))
        >>= λ _. throw thrown

  abbrev pub retry_after :
      Upload → RestagedIntent → Result SyncUploadStatus → Guarded SyncUploadStatus
  retry_after u restaged (err thrown) = restore_failed u restaged thrown
  retry_after u restaged (ok status) =
      finish_upload u "clear a retried snapshot upload" restaged.intent status

  -- The upload's expected remote identity is that of the pending marker.
  unfoldable pub retry_pending_snapshot_upload :
      Upload → PendingSnapshotUpload → Guarded SyncUploadStatus
  unfolding restage_pending_snapshot_upload perform_upload try_replace_sync_credential_state
  retry_pending_snapshot_upload u marker = do
    restaged ←
        run_for_active_session env u.session_id u.vault_id "restage a pending snapshot upload"
          (λ active.
            restage_pending_snapshot_upload env u.vault_id (with_active_key u.unlocked_vault active)
              u.persisted marker)
    performed ← attempt (perform_upload u "retry a pending snapshot upload")
    retry_after u restaged performed

  unfoldable pub clear_staged_snapshot_upload_intent :
      String → String → Persisted → StagedIntent → Guarded Bool
  unfolding try_replace_sync_credential_state
  clear_staged_snapshot_upload_intent session_id vault_id p intent = do
    cleared ← attempt (
        run_for_active_session env session_id vault_id "clear a failed snapshot upload"
          (λ _. try_clear_pending_snapshot_upload env p intent))
    pure (or_false cleared)

  abbrev remove_prepared : String → String → PreparedSyncRemoval → Guarded (Unit {0})
  remove_prepared session_id vault_id already_absent = pure tt
  remove_prepared session_id vault_id ready = do
    run_for_active_session env session_id vault_id "remove the remote vault snapshot"
        (λ _. start_removal env)
    removal_outcome env

  unfoldable pub remove_tracked_remote_snapshot :
      String → String → SyncAccess → Option VaultSnapshotIdentity → Guarded (Unit {0})
  remove_tracked_remote_snapshot session_id vault_id access expected = do
    prepared ← prepare_vault_snapshot_removal env access vault_id expected
    remove_prepared session_id vault_id prepared

  unfoldable pub clear_pending_snapshot_upload :
      String → String → UnlockedVault → Persisted → PendingSnapshotUpload → Guarded Bool
  unfolding require_sync_credential_state encrypt_state try_replace_sync_credential_state
  clear_pending_snapshot_upload session_id vault_id unlocked p marker =
      run_for_active_session env session_id vault_id "clear a pending snapshot upload" λ active. do
        let authorized = with_active_key unlocked active
        access ← require_sync_credential_state env vault_id authorized
        elim (is_same_pending access.state.pending_snapshot_upload marker) as (λ _. Guarded Bool) [
          | false ↦ pure false
          | true ↦ do
            clear ← encrypt_without_pending env vault_id authorized access.state
            try_replace_sync_credential_state env p access.encrypted_state clear
        ]

  abbrev pub roll_back_by :
      Upload → PreparedRestore → SerializedEncrypted → RestoreDecision → Guarded RollbackResult
  roll_back_by u r expected session_advanced = pure not_restored
  roll_back_by u r expected rollback_failed = pure rollback_incomplete
  roll_back_by u r expected proceed = do
    reply ← attempt (save_vault_snapshot_with_checkpoint env (restoring r u.persisted expected))
    leave_session env
    pure (restored_or_failed reply)

  unfoldable pub roll_back :
      Upload
      → VersionVector
      → PreparedRestore
      → SerializedEncrypted
      → Error
      → Guarded SyncUploadStatus
  roll_back u previous r expected thrown = do
    decision ← decide_restore env u.session_id u.vault_id previous
    result ← roll_back_by u r expected decision
    throw (thrown_after u thrown result)

  -- The catch of `uploadPersistedSnapshot`, by the credential state that is saved by then: the
  -- `pending` one from when `onIntentStaged` is called.
  abbrev pub or_roll_back :
      Upload
      → VersionVector
      → PreparedRestore
      → SerializedEncrypted
      → Result SyncUploadStatus
      → Guarded SyncUploadStatus
  or_roll_back u previous r expected (ok status) = pure status
  or_roll_back u previous r expected (err thrown) = roll_back u previous r expected thrown

  abbrev pub upload_persisted_after :
      Upload
      → VersionVector
      → PreparedRestore
      → SerializedEncrypted
      → Result StagedUpload
      → Guarded SyncUploadStatus
  upload_persisted_after u previous r persisted (err thrown) =
      roll_back u previous r persisted thrown
  upload_persisted_after u previous r persisted (ok already_pending) = pure pending
  upload_persisted_after u previous r persisted (ok (staged intent)) = do
    uploaded ← attempt (upload_staged u intent)
    or_roll_back u previous r intent.pending uploaded

  unfoldable pub upload_persisted_snapshot :
      Upload → VersionVector → PreparedRestore → SerializedEncrypted → Guarded SyncUploadStatus
  unfolding stage_upload upload_staged roll_back
  upload_persisted_snapshot u previous r persisted = do
    outcome ← attempt (stage_upload u)
    upload_persisted_after u previous r persisted outcome
