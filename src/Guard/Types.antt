-- ===== src/Guard/Types.antt =====
-- What packages/core/src/domain/sync and ports/sync hold about uploads of snapshots.
use engr_serverless_pm.Base.{ℕ, String, Bool, true, false, ◌&&◌, Option, none, some, List}
use engr_serverless_pm.Snapshot.{
  VaultSnapshot, VaultSnapshotIdentity, SerializedEncrypted, are_vault_snapshot_identities_equal,
}
use engr_serverless_pm.Vault.{SyncTarget}
use engr_serverless_pm.Trust.{LocalVaultTrustCheckpoint}

-- The provider, of which there is one, is left out; the configuration is its JSON text.
pub record SyncCredentials : Type 0 where
  pub credentials_config : String

pub record SyncAccess : Type 0 where
  pub target : SyncTarget
  pub credentials : SyncCredentials

pub data SyncUploadStatus : Type 0 where
  complete pending : SyncUploadStatus

pub record PendingSnapshotUpload : Type 0 where
  pub candidate_snapshot_identity : VaultSnapshotIdentity
  pub expected_remote_snapshot_identity : Option VaultSnapshotIdentity

pub record PreviousCredentials : Type 0 where
  pub credentials : SyncCredentials
  pub revoked_device_ids : List String
  pub vault_key_generation : ℕ

pub record DeviceSyncCredentialState : Type 0 where
  pub current_credentials : SyncCredentials
  pub pending_snapshot_upload : Option PendingSnapshotUpload
  pub previous_credentials : Option PreviousCredentials

pub record DeviceSyncCredentialEncryptionContext : Type 0 where
  pub vault_id : String
  pub device_id : String
  pub target : SyncTarget

-- The request of `saveVaultSnapshotWithCheckpoint`, with a credential state.
pub record SaveRequest : Type 0 where
  pub expected_snapshot_digest : String
  pub expected_checkpoint : LocalVaultTrustCheckpoint
  pub expected_sync_credential_state : Option SerializedEncrypted
  pub snapshot : VaultSnapshot
  pub checkpoint : LocalVaultTrustCheckpoint
  pub sync_credential_state : Option SerializedEncrypted

unfoldable pub to_sync_credential_state_without_pending :
    DeviceSyncCredentialState → DeviceSyncCredentialState
to_sync_credential_state_without_pending state = record {
  current_credentials = state.current_credentials;
  pending_snapshot_upload = none;
  previous_credentials = state.previous_credentials;
}

abbrev are_expected_identities_equal :
    Option VaultSnapshotIdentity → Option VaultSnapshotIdentity → Bool
are_expected_identities_equal none none = true
are_expected_identities_equal (some left) (some right) =
    are_vault_snapshot_identities_equal left right
are_expected_identities_equal _ _ = false

unfoldable pub are_pending_snapshot_uploads_equal :
    PendingSnapshotUpload → PendingSnapshotUpload → Bool
are_pending_snapshot_uploads_equal left right =
    are_vault_snapshot_identities_equal left.candidate_snapshot_identity
      right.candidate_snapshot_identity
    && are_expected_identities_equal left.expected_remote_snapshot_identity
        right.expected_remote_snapshot_identity
