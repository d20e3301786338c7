-- ===== src/Sync/Apply.antt =====
-- packages/core/src/domain/sync/sync-resolution.utils.ts: a reviewed resolution makes the vault that
-- both sides agree on. What trims, normalizes and lowers a name is a parameter.
pub mod Merged
pub mod Combined
pub mod Sound
pub mod Accepted
pub mod Shown
use engr_serverless_pm.Base.{
  String, not, List, Result, ok, err, ◌>>=◌, ◌>>◌, Error, invalid_vault_sync_review,
  tag_groups_differ, invalid_vault_sync_resolution, incompatible_references,
  invalid_vault_tag_reference, invalid_vault_organization_reference, if◌then◌else◌,
}
use engr_serverless_pm.Versioning.{increment_version_vector, merge_version_vectors}
use engr_serverless_pm.Vault.{Vault, Deleted, PasswordEntry, Tag, Folder, DeviceProfile}
use engr_serverless_pm.Vault.Organization.{require_valid_vault_organization}
use engr_serverless_pm.Vault.TagReferences.{require_valid_vault_tag_references}
use engr_serverless_pm.Sync.{ReviewItem, ReviewResolution, tag_groups_json_equal}
use engr_serverless_pm.Sync.Resolution.{
  resolve_entry_states, resolve_tag_states, resolve_folder_states, resolve_device_profile_states,
  build_resolved_vault_entries, build_resolved_vault_tags, build_resolved_vault_folders,
  build_resolved_vault_device_profiles,
}

pub record VaultSyncResolution : Type 0 where
  pub entry_resolutions : List ReviewResolution
  pub tag_resolutions : List ReviewResolution
  pub folder_resolutions : List ReviewResolution
  pub device_profile_resolutions : List ReviewResolution

pub record VaultSyncReview : Type 0 where
  pub entry_reviews : List (ReviewItem PasswordEntry)
  pub tag_reviews : List (ReviewItem Tag)
  pub folder_reviews : List (ReviewItem Folder)
  pub device_profile_reviews : List (ReviewItem DeviceProfile)

-- the `catch` around the two checks
abbrev pub as_incompatible : Error → Error
as_incompatible (invalid_vault_tag_reference e t) =
    invalid_vault_sync_resolution incompatible_references
as_incompatible (invalid_vault_organization_reference fault) =
    invalid_vault_sync_resolution incompatible_references
as_incompatible error = error

abbrev pub catch_incompatible : Result (Unit {0}) → Result (Unit {0})
catch_incompatible (ok u) = ok u
catch_incompatible (err e) = err (as_incompatible e)

-- the object that becomes the resolved vault
abbrev pub resolved_vault :
    Vault
    → Vault
    → List PasswordEntry × List Deleted
    → List Tag × List Deleted
    → List Folder × List Deleted
    → List DeviceProfile × List Deleted
    → String
    → Vault
resolved_vault local remote entries tags folders profiles device_id = record local {
  version_vector =
      increment_version_vector (merge_version_vectors local.version_vector remote.version_vector)
        device_id;
  entries = entries.0;
  deleted_entries = entries.1;
  tags = tags.0;
  deleted_tags = tags.1;
  folders = folders.0;
  deleted_folders = folders.1;
  device_profiles = profiles.0;
  deleted_device_profiles = profiles.1;
}

abbrev pub require_same_tag_groups : Vault → Vault → Result (Unit {0})
require_same_tag_groups local remote =
    if not (tag_groups_json_equal local.tag_groups remote.tag_groups)
    then err (invalid_vault_sync_review tag_groups_differ)
    else ok tt

-- the `try` block around the two checks
abbrev pub require_compatible : (String → String) → Vault → Result (Unit {0})
require_compatible normalized_name vault = catch_incompatible (
    require_valid_vault_tag_references vault
    >> require_valid_vault_organization normalized_name vault)

module _ (normalized_name : String → String) where
  unfoldable pub apply_vault_sync_resolution :
      Vault → Vault → VaultSyncReview → VaultSyncResolution → String → Result Vault
  unfolding resolve_entry_states resolve_tag_states resolve_folder_states
      resolve_device_profile_states build_resolved_vault_entries build_resolved_vault_tags
      build_resolved_vault_folders build_resolved_vault_device_profiles
      require_valid_vault_tag_references require_valid_vault_organization
  apply_vault_sync_resolution local remote review resolution device_id = do
    entry_states ← resolve_entry_states review.entry_reviews resolution.entry_resolutions device_id
    tag_states ← resolve_tag_states review.tag_reviews resolution.tag_resolutions device_id
    folder_states ←
        resolve_folder_states review.folder_reviews resolution.folder_resolutions device_id
    profile_states ←
        resolve_device_profile_states review.device_profile_reviews
          resolution.device_profile_resolutions device_id
    entries ← build_resolved_vault_entries local remote entry_states
    tags ← build_resolved_vault_tags local remote tag_states
    folders ← build_resolved_vault_folders local remote folder_states
    profiles ← build_resolved_vault_device_profiles local remote profile_states
    let resolved = resolved_vault local remote entries tags folders profiles device_id
    require_same_tag_groups local remote
    require_compatible normalized_name resolved
    ok resolved
