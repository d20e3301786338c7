-- ===== src/Guard/Calls.antt =====
-- The calls that the guard makes of its ports and of the other services, and what answers them.
use engr_serverless_pm.Base.{String, Option, List, Result}
use engr_serverless_pm.Base.Effects.{Effect, call}
use engr_serverless_pm.Versioning.{VersionVector}
use engr_serverless_pm.Snapshot.{
  Bytes, SerializedEncrypted, VaultSnapshot, VaultSnapshotDescriptor, VaultSnapshotIdentity,
}
use engr_serverless_pm.Trust.{VerifiedVaultTrustState}
use engr_serverless_pm.Session.Types.{UnlockedVaultSession}
use engr_serverless_pm.Guard.Types.{
  SyncAccess, DeviceSyncCredentialState, DeviceSyncCredentialEncryptionContext, SaveRequest,
}
use engr_serverless_pm.Guard.Outcome.{ProviderValue}

-- `start` of a prepared upload or removal is a call of its own, as is the wait for its outcome.
pub data PreparedSyncUpload : Type 0 where
  ready : PreparedSyncUpload
  not_started : ProviderValue → PreparedSyncUpload

pub data PreparedSyncRemoval : Type 0 where
  ready already_absent : PreparedSyncRemoval

-- What `restorePersistedState` of the session service decides before it restores.
pub data RestoreDecision : Type 0 where
  proceed session_advanced rollback_failed : RestoreDecision

pub data Event : Type 0 where
  snapshot_read : String → Result (Option VaultSnapshot) → Event
  snapshot_digested : VaultSnapshot → Result String → Event
  snapshot_verified : String → VaultSnapshot → VerifiedVaultTrustState → Result (Unit {0}) → Event
  credential_state_read : String → Result (Option SerializedEncrypted) → Event
  credential_state_decrypted :
      SerializedEncrypted
      → Bytes
      → DeviceSyncCredentialEncryptionContext
      → Result DeviceSyncCredentialState
      → Event
  credential_state_encrypted :
      DeviceSyncCredentialState
      → Bytes
      → DeviceSyncCredentialEncryptionContext
      → Result SerializedEncrypted
      → Event
  saved : SaveRequest → Result (Unit {0}) → Event
  session_entered : String → String → Result UnlockedVaultSession → Event
  session_left : Result (Unit {0}) → Event
  restore_decided : String → String → VersionVector → Result RestoreDecision → Event
  descriptor_read : SyncAccess → String → Result (Option VaultSnapshotDescriptor) → Event
  snapshot_downloaded : SyncAccess → VaultSnapshotDescriptor → Result VaultSnapshot → Event
  upload_prepared :
      SyncAccess → VaultSnapshot → Option VaultSnapshotIdentity → Result PreparedSyncUpload → Event
  upload_started : Result (Unit {0}) → Event
  upload_settled : Result ProviderValue → Event
  removal_prepared :
      SyncAccess → String → Option VaultSnapshotIdentity → Result PreparedSyncRemoval → Event
  removal_started : Result (Unit {0}) → Event
  removal_settled : Result (Unit {0}) → Event

-- What answers a call, by all that happened before it.
pub record Environment : Type 0 where
  pub get_vault_snapshot : List Event → String → Result (Option VaultSnapshot)
  pub digest_vault_snapshot : List Event → VaultSnapshot → Result String
  pub verify_snapshot :
      List Event → String → VaultSnapshot → VerifiedVaultTrustState → Result (Unit {0})
  pub get_device_sync_credential_state : List Event → String → Result (Option SerializedEncrypted)
  pub decrypt_device_sync_credential_state :
      List Event
      → SerializedEncrypted
      → Bytes
      → DeviceSyncCredentialEncryptionContext
      → Result DeviceSyncCredentialState
  pub encrypt_device_sync_credential_state :
      List Event
      → DeviceSyncCredentialState
      → Bytes
      → DeviceSyncCredentialEncryptionContext
      → Result SerializedEncrypted
  pub save_vault_snapshot_with_checkpoint : List Event → SaveRequest → Result (Unit {0})
  pub enter_session : List Event → String → String → Result UnlockedVaultSession
  pub leave_session : List Event → Result (Unit {0})
  pub decide_restore : List Event → String → String → VersionVector → Result RestoreDecision
  pub get_latest_vault_snapshot_descriptor :
      List Event → SyncAccess → String → Result (Option VaultSnapshotDescriptor)
  pub download_vault_snapshot :
      List Event → SyncAccess → VaultSnapshotDescriptor → Result VaultSnapshot
  pub prepare_vault_snapshot_upload :
      List Event
      → SyncAccess
      → VaultSnapshot
      → Option VaultSnapshotIdentity
      → Result PreparedSyncUpload
  pub start_upload : List Event → Result (Unit {0})
  pub upload_outcome : List Event → Result ProviderValue
  pub prepare_vault_snapshot_removal :
      List Event → SyncAccess → String → Option VaultSnapshotIdentity → Result PreparedSyncRemoval
  pub start_removal : List Event → Result (Unit {0})
  pub removal_outcome : List Event → Result (Unit {0})
  pub algorithm_suite_id : String

abbrev pub Guarded : Type 0 → Type 0
Guarded A = Effect Event A

module _ (env : Environment) where
  abbrev pub get_vault_snapshot : String → Guarded (Option VaultSnapshot)
  get_vault_snapshot v = call (λ h. env.get_vault_snapshot h v) (snapshot_read v)

  abbrev pub digest_vault_snapshot : VaultSnapshot → Guarded String
  digest_vault_snapshot s = call (λ h. env.digest_vault_snapshot h s) (snapshot_digested s)

  abbrev pub verify_snapshot : String → VaultSnapshot → VerifiedVaultTrustState → Guarded (Unit {0})
  verify_snapshot v s t = call (λ h. env.verify_snapshot h v s t) (snapshot_verified v s t)

  abbrev pub get_device_sync_credential_state : String → Guarded (Option SerializedEncrypted)
  get_device_sync_credential_state v =
      call (λ h. env.get_device_sync_credential_state h v) (credential_state_read v)

  abbrev pub decrypt_device_sync_credential_state :
      SerializedEncrypted
      → Bytes
      → DeviceSyncCredentialEncryptionContext
      → Guarded DeviceSyncCredentialState
  decrypt_device_sync_credential_state e k c =
      call (λ h. env.decrypt_device_sync_credential_state h e k c)
        (credential_state_decrypted e k c)

  abbrev pub encrypt_device_sync_credential_state :
      DeviceSyncCredentialState
      → Bytes
      → DeviceSyncCredentialEncryptionContext
      → Guarded SerializedEncrypted
  encrypt_device_sync_credential_state s k c =
      call (λ h. env.encrypt_device_sync_credential_state h s k c)
        (credential_state_encrypted s k c)

  abbrev pub save_vault_snapshot_with_checkpoint : SaveRequest → Guarded (Unit {0})
  save_vault_snapshot_with_checkpoint r =
      call (λ h. env.save_vault_snapshot_with_checkpoint h r) (saved r)

  abbrev pub enter_session : String → String → Guarded UnlockedVaultSession
  enter_session v op = call (λ h. env.enter_session h v op) (session_entered v op)

  abbrev pub leave_session : Guarded (Unit {0})
  leave_session = call (λ h. env.leave_session h) session_left

  abbrev pub decide_restore : String → String → VersionVector → Guarded RestoreDecision
  decide_restore s v vector =
      call (λ h. env.decide_restore h s v vector) (restore_decided s v vector)

  abbrev pub get_latest_vault_snapshot_descriptor :
      SyncAccess → String → Guarded (Option VaultSnapshotDescriptor)
  get_latest_vault_snapshot_descriptor a v =
      call (λ h. env.get_latest_vault_snapshot_descriptor h a v) (descriptor_read a v)

  abbrev pub download_vault_snapshot : SyncAccess → VaultSnapshotDescriptor → Guarded VaultSnapshot
  download_vault_snapshot a d =
      call (λ h. env.download_vault_snapshot h a d) (snapshot_downloaded a d)

  abbrev pub prepare_vault_snapshot_upload :
      SyncAccess → VaultSnapshot → Option VaultSnapshotIdentity → Guarded PreparedSyncUpload
  prepare_vault_snapshot_upload a s i =
      call (λ h. env.prepare_vault_snapshot_upload h a s i) (upload_prepared a s i)

  abbrev pub start_upload : Guarded (Unit {0})
  start_upload = call (λ h. env.start_upload h) upload_started

  abbrev pub upload_outcome : Guarded ProviderValue
  upload_outcome = call (λ h. env.upload_outcome h) upload_settled

  abbrev pub prepare_vault_snapshot_removal :
      SyncAccess → String → Option VaultSnapshotIdentity → Guarded PreparedSyncRemoval
  prepare_vault_snapshot_removal a v i =
      call (λ h. env.prepare_vault_snapshot_removal h a v i) (removal_prepared a v i)

  abbrev pub start_removal : Guarded (Unit {0})
  start_removal = call (λ h. env.start_removal h) removal_started

  abbrev pub removal_outcome : Guarded (Unit {0})
  removal_outcome = call (λ h. env.removal_outcome h) removal_settled
