-- ===== src/Snapshot.antt =====
-- packages/core/src/domain/snapshot: what identifies a snapshot, and the snapshot itself. Encrypted
-- content, trust chain and signature are bytes, which no modelled function reads.
use engr_serverless_pm.Base.{ℕ, String, Bool, ◌&&◌, Option, List, ◌==◌, if◌then◌else◌, nat_eq, not}
use engr_serverless_pm.Versioning.{
  VersionVector, VersionVectorRelation, equal, local_ahead, remote_ahead, broken,
  compare_version_vectors,
}
pub mod Identity

abbrev pub Bytes : Type 0
Bytes = List ℕ

pub record VaultSnapshotDescriptor : Type 0 where
  pub vault_id : String
  pub snapshot_version_vector : VersionVector
  pub revision_timestamp : ℕ

pub record VaultSnapshotIdentity : Type 0 where
  pub descriptor : VaultSnapshotDescriptor
  pub snapshot_digest : String

-- Bytes encrypted and written as base64url texts.
pub record SerializedEncrypted : Type 0 where
  pub ciphertext : String
  pub encryption_nonce : String

pub record DeviceVaultKeyEnvelope : Type 0 where
  pub recipient_device_id : String
  pub vault_key_generation : ℕ
  pub ephemeral_public_key : Bytes
  pub hkdf_salt : Bytes
  pub encrypted_vault_master_key : SerializedEncrypted

pub record DeviceKeySlot : Type 0 where
  pub device_id : String
  pub vault_key_generation : ℕ
  pub envelope : DeviceVaultKeyEnvelope

-- The version of the schema, which is always 1, is left out.
pub record VaultSnapshotMetadata : Type 0 where
  pub id : String
  pub vault_creation_timestamp : ℕ
  pub revision_timestamp : ℕ
  pub snapshot_version_vector : VersionVector
  pub algorithm_suite_id : String
  pub created_by_device_id : String
  pub vault_key_generation : ℕ
  pub upload_expected_remote_snapshot_identity : Option (Option VaultSnapshotIdentity)

pub record VaultSnapshot : Type 0 where
  pub metadata : VaultSnapshotMetadata
  pub trust_chain : Bytes
  pub device_slots : List DeviceKeySlot
  pub content : Bytes
  pub signature : Bytes

abbrev pub is_equal : VersionVectorRelation → Bool
is_equal equal = Bool.true
is_equal _ = Bool.false

unfoldable pub compare_vault_snapshot_descriptors :
    VaultSnapshotDescriptor → VaultSnapshotDescriptor → VersionVectorRelation
compare_vault_snapshot_descriptors local remote =
    if not (local.vault_id == remote.vault_id)
    then broken
    else compare_version_vectors local.snapshot_version_vector remote.snapshot_version_vector

unfoldable pub are_vault_snapshot_descriptors_equal :
    VaultSnapshotDescriptor → VaultSnapshotDescriptor → Bool
are_vault_snapshot_descriptors_equal actual expected =
    actual.vault_id == expected.vault_id
    && nat_eq actual.revision_timestamp expected.revision_timestamp
    && is_equal
        (compare_version_vectors actual.snapshot_version_vector expected.snapshot_version_vector)

unfoldable pub are_vault_snapshot_identities_equal :
    VaultSnapshotIdentity → VaultSnapshotIdentity → Bool
unfolding are_vault_snapshot_descriptors_equal
are_vault_snapshot_identities_equal actual expected =
    actual.snapshot_digest == expected.snapshot_digest
    && are_vault_snapshot_descriptors_equal actual.descriptor expected.descriptor

unfoldable pub to_vault_snapshot_descriptor : String → VaultSnapshot → VaultSnapshotDescriptor
to_vault_snapshot_descriptor vault_id snapshot = record {
  vault_id = vault_id;
  snapshot_version_vector = snapshot.metadata.snapshot_version_vector;
  revision_timestamp = snapshot.metadata.revision_timestamp;
}

unfoldable pub to_vault_snapshot_identity : String → VaultSnapshot → String → VaultSnapshotIdentity
unfolding to_vault_snapshot_descriptor
to_vault_snapshot_identity vault_id snapshot digest = record {
  descriptor = to_vault_snapshot_descriptor vault_id snapshot;
  snapshot_digest = digest;
}
