-- ===== src/Session/Types.antt =====
-- packages/core/src/domain/session: an unlocked vault and the session that holds it.
use engr_serverless_pm.Base.{String}
use engr_serverless_pm.Versioning.{VersionVector}
use engr_serverless_pm.Snapshot.{Bytes, SerializedEncrypted}
use engr_serverless_pm.Vault.{Vault}
use engr_serverless_pm.Trust.{VerifiedVaultTrustState, LocalVaultTrustAnchor}

pub record TrustedSnapshotContext : Type 0 where
  pub snapshot_digest : String
  pub trust : VerifiedVaultTrustState

pub record UnlockedVault : Type 0 where
  pub vault_id : String
  pub device_id : String
  pub vault : Vault
  pub vault_master_key : Bytes
  pub device_private_sign_key : Bytes
  pub device_private_vault_key : Bytes
  pub device_local_protection_key : Bytes
  pub trusted_snapshot_context : TrustedSnapshotContext
  pub vault_trust_anchor : LocalVaultTrustAnchor

pub record UnlockedVaultSession : Type 0 where
  pub session_id : String
  pub unlocked_vault : UnlockedVault
  pub source_snapshot_version_vector : VersionVector

pub record UnlockedVaultSessionMaterial : Type 0 where
  pub session_id : String
  pub vault_id : String
  pub source_snapshot_version_vector : VersionVector
  pub device_id : String
  pub vault_master_key : Bytes
  pub device_private_sign_key : Bytes
  pub device_private_vault_key : Bytes
  pub device_local_protection_key : Bytes
  pub payload_key : Bytes
  pub trusted_snapshot_context : TrustedSnapshotContext
  pub vault_trust_anchor : LocalVaultTrustAnchor

pub record EncryptedUnlockedVaultSessionPayload : Type 0 where
  pub session_id : String
  pub vault_id : String
  pub source_snapshot_version_vector : VersionVector
  pub content : SerializedEncrypted
