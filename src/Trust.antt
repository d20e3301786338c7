-- ===== src/Trust.antt =====
-- packages/core/src/domain/device-trust: what a device knows of the devices that it trusts.
use engr_serverless_pm.Base.{ℕ, String, List}
use engr_serverless_pm.Snapshot.{Bytes}
use engr_serverless_pm.Versioning.{VersionVector}

pub record DeviceTrustIdentity : Type 0 where
  pub device_id : String
  pub public_sign_key : Bytes
  pub public_vault_key : Bytes

pub record VerifiedVaultTrustState : Type 0 where
  pub generation : ℕ
  pub vault_key_generation : ℕ
  pub certificate_digest : String
  pub trusted_devices : List DeviceTrustIdentity

-- The version, which is always 1, is left out.
pub record LocalVaultTrustAnchor : Type 0 where
  pub vault_id : String
  pub genesis_device_id : String
  pub genesis_public_sign_key : Bytes
  pub genesis_certificate_digest : String

-- The version, which is always 1, is left out.
pub record LocalVaultTrustCheckpointPayload : Type 0 where
  pub vault_id : String
  pub device_id : String
  pub trust_generation : ℕ
  pub trust_certificate_digest : String
  pub vault_key_generation : ℕ
  pub snapshot_version_vector : VersionVector
  pub snapshot_digest : String

pub record LocalVaultTrustCheckpoint : Type 0 where
  pub payload : LocalVaultTrustCheckpointPayload
  pub signature : String
