-- ===== src/Guard/Credentials.antt =====
-- The device's sync credential state and the marker of a pending upload in it: the helpers of
-- `VaultSyncGuardService` that stage, restage and clear the marker.
use engr_serverless_pm.Base.{
  String, Bool, true, false, not, ◌||◌, Option, none, some, Error, Result, ok, err, if◌then◌else◌,
  ◌==◌, local_sync_credentials_missing, remote_vault_snapshot_integrity,
  unlocked_vault_session_expired,
}
use engr_serverless_pm.Base.Effects.{pure, throw, attempt, ◌>>=◌, ◌>>◌}
use engr_serverless_pm.Snapshot.{SerializedEncrypted, VaultSnapshot, VaultSnapshotIdentity}
use engr_serverless_pm.Vault.{SyncTarget}
use engr_serverless_pm.Trust.{LocalVaultTrustCheckpoint}
use engr_serverless_pm.Session.Types.{UnlockedVault}
use engr_serverless_pm.Guard.Types.{
  SyncAccess, PendingSnapshotUpload, DeviceSyncCredentialState,
  DeviceSyncCredentialEncryptionContext, SaveRequest, to_sync_credential_state_without_pending,
  are_pending_snapshot_uploads_equal,
}
use engr_serverless_pm.Guard.Calls.{
  Environment, Guarded, get_device_sync_credential_state, decrypt_device_sync_credential_state,
  encrypt_device_sync_credential_state, save_vault_snapshot_with_checkpoint, enter_session,
  leave_session,
}

pub record CredentialAccess : Type 0 where
  pub encrypted_state : SerializedEncrypted
  pub state : DeviceSyncCredentialState
  pub sync_access : SyncAccess

-- What a save of the credential state's marker needs.
pub record Persisted : Type 0 where
  pub snapshot : VaultSnapshot
  pub snapshot_digest : String
  pub checkpoint : LocalVaultTrustCheckpoint

pub record StagedIntent : Type 0 where
  pub clear : SerializedEncrypted
  pub pending : SerializedEncrypted

pub data StagedUpload : Type 0 where
  already_pending : StagedUpload
  staged : StagedIntent → StagedUpload

pub record RestagedIntent : Type 0 where
  pub previous : SerializedEncrypted
  pub intent : StagedIntent

abbrev pub or_throw : {A : Type 0} → Error → Option A → Guarded A
or_throw e none = throw e
or_throw e (some a) = pure a

abbrev pub throw_if : Bool → Error → Guarded (Unit {0})
throw_if true e = throw e
throw_if false e = pure tt

abbrev pub context_of : String → UnlockedVault → SyncTarget → DeviceSyncCredentialEncryptionContext
context_of vault_id unlocked target = record {
  vault_id = vault_id;
  device_id = unlocked.device_id;
  target = target;
}

unfoldable pub require_sync_credential_encryption_context :
    String → UnlockedVault → Guarded DeviceSyncCredentialEncryptionContext
require_sync_credential_encryption_context vault_id unlocked = do
  target ← or_throw (local_sync_credentials_missing vault_id) unlocked.vault.sync_target
  pure (context_of vault_id unlocked target)

abbrev pub differs_in_vault : String → Option VaultSnapshotIdentity → Bool
differs_in_vault vault_id none = false
differs_in_vault vault_id (some identity) = not (identity.descriptor.vault_id == vault_id)

abbrev pub is_of_another_vault : String → PendingSnapshotUpload → Bool
is_of_another_vault vault_id p =
    not (p.candidate_snapshot_identity.descriptor.vault_id == vault_id)
    || differs_in_vault vault_id p.expected_remote_snapshot_identity

abbrev pub has_pending : DeviceSyncCredentialState → Bool
has_pending state = elim state.pending_snapshot_upload [ none ↦ false | some p ↦ true ]

abbrev pub has_previous_credentials : DeviceSyncCredentialState → Bool
has_previous_credentials state = elim state.previous_credentials [ none ↦ false | some p ↦ true ]

-- `{ ...params.unlockedVault, deviceLocalProtectionKey: activeUnlockedVault.deviceLocalProtectionKey }`
abbrev pub with_active_key : UnlockedVault → UnlockedVault → UnlockedVault
with_active_key unlocked active = record unlocked {
  device_local_protection_key = active.device_local_protection_key;
}

abbrev pub replacing : Persisted → SerializedEncrypted → SerializedEncrypted → SaveRequest
replacing p expected next = record {
  expected_snapshot_digest = p.snapshot_digest;
  expected_checkpoint = p.checkpoint;
  expected_sync_credential_state = some expected;
  snapshot = p.snapshot;
  checkpoint = p.checkpoint;
  sync_credential_state = some next;
}

abbrev pub is_saved : Result (Unit {0}) → Bool
is_saved (ok _) = true
is_saved (err _) = false

abbrev pub is_same_pending : Option PendingSnapshotUpload → PendingSnapshotUpload → Bool
is_same_pending none pending = false
is_same_pending (some found) pending = are_pending_snapshot_uploads_equal found pending

module _ (env : Environment) where
  unfoldable pub require_sync_credential_state : String → UnlockedVault → Guarded CredentialAccess
  require_sync_credential_state vault_id unlocked = do
    target ← or_throw (local_sync_credentials_missing vault_id) unlocked.vault.sync_target
    found ← get_device_sync_credential_state env vault_id
    encrypted ← or_throw (local_sync_credentials_missing vault_id) found
    state ←
        decrypt_device_sync_credential_state env encrypted unlocked.device_local_protection_key
          (context_of vault_id unlocked target)
    pure (record {
      encrypted_state = encrypted;
      state = state;
      sync_access = record { target = target; credentials = state.current_credentials };
    })

  unfoldable pub encrypt_state :
      String → UnlockedVault → DeviceSyncCredentialState → Guarded SerializedEncrypted
  unfolding require_sync_credential_encryption_context
  encrypt_state vault_id unlocked state = do
    context ← require_sync_credential_encryption_context vault_id unlocked
    encrypt_device_sync_credential_state env state unlocked.device_local_protection_key context

  -- `encryptDeviceSyncCredentialStateWithoutPending`
  abbrev pub encrypt_without_pending :
      String → UnlockedVault → DeviceSyncCredentialState → Guarded SerializedEncrypted
  encrypt_without_pending vault_id unlocked state =
      encrypt_state vault_id unlocked (to_sync_credential_state_without_pending state)

  unfoldable pub try_replace_sync_credential_state :
      Persisted → SerializedEncrypted → SerializedEncrypted → Guarded Bool
  try_replace_sync_credential_state p expected next = do
    reply ← attempt (save_vault_snapshot_with_checkpoint env (replacing p expected next))
    pure (is_saved reply)

  abbrev pub try_clear_pending_snapshot_upload : Persisted → StagedIntent → Guarded Bool
  try_clear_pending_snapshot_upload p intent =
      try_replace_sync_credential_state p intent.pending intent.clear

  unfoldable pub stage_new_upload :
      String
      → UnlockedVault
      → Persisted
      → PendingSnapshotUpload
      → CredentialAccess
      → Guarded StagedUpload
  unfolding encrypt_state to_sync_credential_state_without_pending
  stage_new_upload vault_id unlocked p pending access = do
    clear ← encrypt_without_pending vault_id unlocked access.state
    marked ←
        encrypt_state vault_id unlocked
          (record (to_sync_credential_state_without_pending access.state) {
            pending_snapshot_upload = some pending;
          })
    save_vault_snapshot_with_checkpoint env (replacing p access.encrypted_state marked)
    pure (staged (record { clear = clear; pending = marked }))

  abbrev pub stage_beside :
      String
      → UnlockedVault
      → Persisted
      → PendingSnapshotUpload
      → CredentialAccess
      → Option PendingSnapshotUpload
      → Guarded StagedUpload
  stage_beside vault_id unlocked p pending access none =
      stage_new_upload vault_id unlocked p pending access
  stage_beside vault_id unlocked p pending access (some found) =
      if are_pending_snapshot_uploads_equal found pending
      then pure already_pending
      else throw (remote_vault_snapshot_integrity vault_id)

  unfoldable pub stage_pending_snapshot_upload :
      String → UnlockedVault → Persisted → PendingSnapshotUpload → Guarded StagedUpload
  unfolding require_sync_credential_state stage_new_upload are_pending_snapshot_uploads_equal
  stage_pending_snapshot_upload vault_id unlocked p pending = do
    throw_if (is_of_another_vault vault_id pending) (remote_vault_snapshot_integrity vault_id)
    access ← require_sync_credential_state vault_id unlocked
    stage_beside vault_id unlocked p pending access access.state.pending_snapshot_upload

  -- The two encryptions of `Promise.all` are made one after the other.
  abbrev pub restage_found :
      String → UnlockedVault → Persisted → CredentialAccess → Guarded RestagedIntent
  restage_found vault_id unlocked p access = do
    clear ← encrypt_without_pending vault_id unlocked access.state
    marked ← encrypt_state vault_id unlocked access.state
    save_vault_snapshot_with_checkpoint env (replacing p access.encrypted_state marked)
    pure (record {
      previous = access.encrypted_state;
      intent = record { clear = clear; pending = marked };
    })

  unfoldable pub restage_pending_snapshot_upload :
      String → UnlockedVault → Persisted → PendingSnapshotUpload → Guarded RestagedIntent
  unfolding require_sync_credential_state encrypt_state are_pending_snapshot_uploads_equal
  restage_pending_snapshot_upload vault_id unlocked p pending = do
    access ← require_sync_credential_state vault_id unlocked
    throw_if (not (is_same_pending access.state.pending_snapshot_upload pending))
        (remote_vault_snapshot_integrity vault_id)
    restage_found vault_id unlocked p access

  -- `runForActiveSession`. The operation runs within the session service's exclusive run, whose end
  -- may be refused too.
  abbrev pub run_for_active_session :
      {A : Type 0} → String → String → String → (UnlockedVault → Guarded A) → Guarded A
  run_for_active_session session_id vault_id operation run = do
    session ← enter_session env vault_id operation
    throw_if (not (session.session_id == session_id)) (unlocked_vault_session_expired vault_id)
    a ← run session.unlocked_vault
    leave_session env
    pure a
