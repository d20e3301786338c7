-- ===== src/Guard/Mutations.antt =====
-- The checks of `VaultSyncGuardService` before a vault is changed locally, with the snapshot service's
-- check of the current snapshot.
pub mod Facts
pub mod Ready
use engr_serverless_pm.Base.{
  String, Bool, true, false, not, ◌&&◌, ◌||◌, any, Option, none, some, List, Error, Result, ok, err,
  if◌then◌else◌, ◌==◌, remote_vault_snapshot_changed, remote_vault_snapshot_ahead,
  remote_vault_snapshot_not_found, remote_vault_snapshot_integrity, local_vault_snapshot_ahead,
  sync_conflict_detected, sync_removal_pending, provider_credential_revocation_pending,
  local_sync_credentials_missing, persisted_vault_mismatch, vault_snapshot_not_found,
  vault_snapshot_version_mismatch, unsupported_algorithm_suite, vault_snapshot_digest_mismatch,
  snapshot_signing_device_not_trusted,
}
use engr_serverless_pm.Base.Effects.{pure, throw, attempt, ◌>>=◌, ◌>>◌}
use engr_serverless_pm.Versioning.{
  VersionVector, VersionVectorRelation, equal, local_ahead, remote_ahead, broken,
  compare_version_vectors,
}
use engr_serverless_pm.Snapshot.{
  SerializedEncrypted, VaultSnapshot, VaultSnapshotDescriptor, VaultSnapshotIdentity, is_equal,
  compare_vault_snapshot_descriptors, are_vault_snapshot_descriptors_equal,
  to_vault_snapshot_descriptor,
}
use engr_serverless_pm.Vault.{SyncTarget, SyncRemovalPending, ProviderCredentialRevocationPending}
use engr_serverless_pm.Session.Types.{UnlockedVault}
use engr_serverless_pm.Guard.Types.{SyncAccess, PendingSnapshotUpload}
use engr_serverless_pm.Guard.Calls.{
  Environment, Guarded, get_vault_snapshot, digest_vault_snapshot, verify_snapshot,
  get_latest_vault_snapshot_descriptor, download_vault_snapshot, get_device_sync_credential_state,
  decrypt_device_sync_credential_state,
}
use engr_serverless_pm.Guard.Credentials.{
  CredentialAccess, or_throw, throw_if, has_pending, has_previous_credentials, is_of_another_vault,
  context_of, require_sync_credential_state, encrypt_state, encrypt_without_pending,
}
use engr_serverless_pm.Guard.Uploads.{is_changed_remotely}

pub data LocalMutationSyncState : Type 0 where
  unsynced : VaultSnapshot → LocalMutationSyncState
  synced :
      VaultSnapshot
      → SyncAccess
      → SerializedEncrypted
      → VaultSnapshotIdentity
      → LocalMutationSyncState

pub record WithoutPending : Type 0 where
  pub expected_state : SerializedEncrypted
  pub next_state : SerializedEncrypted
  pub sync_access : SyncAccess

abbrev pub is_removal_pending : Option SyncRemovalPending → Bool
is_removal_pending none = false
is_removal_pending (some p) = true

abbrev pub is_revocation_pending : Option ProviderCredentialRevocationPending → Bool
is_revocation_pending none = false
is_revocation_pending (some p) = true

-- What a relation of the local and the remote descriptor is refused with.
abbrev require_equal : String → VersionVectorRelation → Guarded (Unit {0})
require_equal vault_id equal = pure tt
require_equal vault_id remote_ahead = throw (remote_vault_snapshot_ahead vault_id)
require_equal vault_id local_ahead = throw (local_vault_snapshot_ahead vault_id)
require_equal vault_id broken = throw (remote_vault_snapshot_integrity vault_id)

abbrev or_conflict : String → Result VaultSnapshot → Guarded VaultSnapshot
or_conflict vault_id (ok snapshot) = pure snapshot
or_conflict vault_id (err thrown) =
    throw (if is_changed_remotely thrown then sync_conflict_detected vault_id else thrown)

module _ (env : Environment) where
  -- `requireCurrentSnapshotForUnlockedVault` of the snapshot service. The schema's version, which is
  -- always 1, is left out; verifying the snapshot is the trust service's.
  unfoldable pub require_current_snapshot_for_unlocked_vault :
      String → UnlockedVault → VersionVector → Guarded VaultSnapshot
  require_current_snapshot_for_unlocked_vault vault_id unlocked source = do
    throw_if (not (unlocked.vault_id == vault_id))
        (persisted_vault_mismatch vault_id unlocked.vault_id)
    found ← get_vault_snapshot env vault_id
    snapshot ← or_throw (vault_snapshot_not_found vault_id) found
    throw_if
        (not (is_equal (compare_version_vectors snapshot.metadata.snapshot_version_vector source)))
        (vault_snapshot_version_mismatch vault_id)
    throw_if (not (snapshot.metadata.algorithm_suite_id == env.algorithm_suite_id))
        (unsupported_algorithm_suite vault_id)
    digest ← digest_vault_snapshot env snapshot
    throw_if (not (digest == unlocked.trusted_snapshot_context.snapshot_digest))
        (vault_snapshot_digest_mismatch vault_id)
    verify_snapshot env vault_id snapshot unlocked.trusted_snapshot_context.trust
    throw_if (not (any (λ slot. slot.device_id == unlocked.device_id) snapshot.device_slots))
        (snapshot_signing_device_not_trusted vault_id unlocked.device_id)
    pure snapshot

  -- The remote descriptor, which describes the local snapshot.
  abbrev pub find_descriptor : String → VaultSnapshot → SyncAccess → Guarded VaultSnapshotDescriptor
  find_descriptor vault_id local_snapshot access = do
    found ← get_latest_vault_snapshot_descriptor env access vault_id
    descriptor ← or_throw (remote_vault_snapshot_not_found vault_id) found
    let local_descriptor = to_vault_snapshot_descriptor vault_id local_snapshot
    require_equal vault_id (compare_vault_snapshot_descriptors local_descriptor descriptor)
    throw_if (not (are_vault_snapshot_descriptors_equal descriptor local_descriptor))
        (remote_vault_snapshot_integrity vault_id)
    pure descriptor

  -- The remote snapshot with its digest, which is the trusted one.
  abbrev pub download_trusted :
      String
      → UnlockedVault
      → SyncAccess
      → VaultSnapshotDescriptor
      → Guarded (VaultSnapshot × String)
  download_trusted vault_id unlocked access descriptor = do
    downloaded ← attempt (download_vault_snapshot env access descriptor)
    remote_snapshot ← or_conflict vault_id downloaded
    digest ← digest_vault_snapshot env remote_snapshot
    throw_if (not (digest == unlocked.trusted_snapshot_context.snapshot_digest))
        (remote_vault_snapshot_integrity vault_id)
    pure (remote_snapshot, digest)

  abbrev pub prepare_synced :
      String → UnlockedVault → VaultSnapshot → Guarded LocalMutationSyncState
  prepare_synced vault_id unlocked local_snapshot = do
    throw_if (is_removal_pending unlocked.vault.sync_removal_pending)
        (sync_removal_pending vault_id "modify vault data")
    access ← require_sync_credential_state env vault_id unlocked
    throw_if (has_pending access.state) (local_vault_snapshot_ahead vault_id)
    descriptor ← find_descriptor vault_id local_snapshot access.sync_access
    (remote_snapshot, digest) ← download_trusted vault_id unlocked access.sync_access descriptor
    pure (
        synced local_snapshot access.sync_access access.encrypted_state
          (record { descriptor = descriptor; snapshot_digest = digest }))

  abbrev pub prepare_for :
      String → UnlockedVault → VaultSnapshot → Option SyncTarget → Guarded LocalMutationSyncState
  prepare_for vault_id unlocked local_snapshot none = pure (unsynced local_snapshot)
  prepare_for vault_id unlocked local_snapshot (some target) =
      prepare_synced vault_id unlocked local_snapshot

  unfoldable pub prepare_local_mutation :
      String → UnlockedVault → VersionVector → Guarded LocalMutationSyncState
  unfolding require_current_snapshot_for_unlocked_vault require_sync_credential_state
      compare_vault_snapshot_descriptors are_vault_snapshot_descriptors_equal
  prepare_local_mutation vault_id unlocked source = do
    local_snapshot ← require_current_snapshot_for_unlocked_vault vault_id unlocked source
    prepare_for vault_id unlocked local_snapshot unlocked.vault.sync_target

  unfoldable pub require_snapshot_upload_reconciled : String → UnlockedVault → Guarded (Unit {0})
  unfolding require_sync_credential_state
  require_snapshot_upload_reconciled vault_id unlocked = do
    access ← require_sync_credential_state env vault_id unlocked
    throw_if (has_pending access.state) (local_vault_snapshot_ahead vault_id)

  abbrev own_pending :
      String → Option PendingSnapshotUpload → Guarded (Option PendingSnapshotUpload)
  own_pending vault_id none = pure none
  own_pending vault_id (some p) = do
    throw_if (is_of_another_vault vault_id p) (remote_vault_snapshot_integrity vault_id)
    pure (some p)

  unfoldable pub get_pending_snapshot_upload :
      String → UnlockedVault → Guarded (Option PendingSnapshotUpload)
  unfolding require_sync_credential_state
  get_pending_snapshot_upload vault_id unlocked = do
    access ← require_sync_credential_state env vault_id unlocked
    own_pending vault_id access.state.pending_snapshot_upload

  abbrev forbids : Option String → Bool → String → Guarded (Unit {0})
  forbids none pending vault_id = pure tt
  forbids (some operation) pending vault_id =
      throw_if pending (provider_credential_revocation_pending vault_id operation)

  unfoldable pub prepare_sync_credential_state_without_pending :
      String → UnlockedVault → Bool → Option String → Guarded WithoutPending
  unfolding require_sync_credential_state encrypt_state
  prepare_sync_credential_state_without_pending vault_id unlocked discard_pending operation = do
    forbids operation (is_revocation_pending unlocked.vault.provider_credential_revocation_pending)
        vault_id
    access ← require_sync_credential_state env vault_id unlocked
    forbids operation (has_previous_credentials access.state) vault_id
    throw_if (has_pending access.state && not discard_pending) (local_vault_snapshot_ahead vault_id)
    next ← encrypt_without_pending env vault_id unlocked access.state
    pure (record {
      expected_state = access.encrypted_state;
      next_state = next;
      sync_access = access.sync_access;
    })

  abbrev revocation_complete_at :
      String → UnlockedVault → String → Option SyncTarget → Guarded (Unit {0})
  revocation_complete_at vault_id unlocked operation none = pure tt
  revocation_complete_at vault_id unlocked operation (some target) = do
    found ← get_device_sync_credential_state env vault_id
    encrypted ← or_throw (local_sync_credentials_missing vault_id) found
    state ←
        decrypt_device_sync_credential_state env encrypted unlocked.device_local_protection_key
          (context_of vault_id unlocked target)
    throw_if (has_previous_credentials state)
        (provider_credential_revocation_pending vault_id operation)

  unfoldable pub require_provider_credential_revocation_complete :
      String → UnlockedVault → String → Guarded (Unit {0})
  require_provider_credential_revocation_complete vault_id unlocked operation = do
    throw_if (is_revocation_pending unlocked.vault.provider_credential_revocation_pending)
        (provider_credential_revocation_pending vault_id operation)
    revocation_complete_at vault_id unlocked operation unlocked.vault.sync_target
