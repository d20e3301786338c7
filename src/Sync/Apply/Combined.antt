-- ===== src/Sync/Apply/Combined.antt =====
-- What the choices of a resolution make of two valid vaults, before the references are checked.
use engr_serverless_pm.Base.{String, ◌≡◌, refl, List, ok, Map}
use engr_serverless_pm.Versioning.{increment_version_vector, merge_version_vectors}
use engr_serverless_pm.Vault.{Vault, Deleted, PasswordEntry, Tag, Folder, DeviceProfile}
use engr_serverless_pm.Vault.Validity.{IsValid}
use engr_serverless_pm.Sync.{Reviewable, entry_kind, tag_kind, folder_kind, device_profile_kind}
use engr_serverless_pm.Sync.Review.{
  find_all_entries_ids, find_all_tags_ids, find_all_folders_ids, find_all_device_profiles_ids,
}
use engr_serverless_pm.Sync.Resolution.{
  resolve_entry_states, resolve_tag_states, resolve_folder_states, resolve_device_profile_states,
  build_resolved_vault_entries, build_resolved_vault_tags, build_resolved_vault_folders,
  build_resolved_vault_device_profiles,
}
use engr_serverless_pm.Sync.Resolution.Merged.{Merges}
use engr_serverless_pm.Sync.Apply.Merged.{
  IsReviewOf, entries-Merges, tags-Merges, folders-Merges, device_profiles-Merges,
}
use engr_serverless_pm.Sync.Apply.{VaultSyncReview, VaultSyncResolution, resolved_vault}

-- Each collection merges the two sides under the agreed vector, which is also the vault's; the tag
-- groups and the synchronization state stay as they are.
pub record Combines (local remote : Vault) (review : VaultSyncReview)
    (resolution : VaultSyncResolution) (d : String) (resolved : Vault) : Type 0 where
  pub version :
      resolved.version_vector
      ≡ increment_version_vector
          (merge_version_vectors local.version_vector remote.version_vector)
          d
  pub entries :
      Merges entry_kind local.entries local.deleted_entries d
        (find_all_entries_ids local remote)
        review.entry_reviews
        resolution.entry_resolutions
        resolved.entries
        resolved.deleted_entries
        resolved.version_vector
  pub tags :
      Merges tag_kind local.tags local.deleted_tags d
        (find_all_tags_ids local remote)
        review.tag_reviews
        resolution.tag_resolutions
        resolved.tags
        resolved.deleted_tags
        resolved.version_vector
  pub folders :
      Merges folder_kind local.folders local.deleted_folders d
        (find_all_folders_ids local remote)
        review.folder_reviews
        resolution.folder_resolutions
        resolved.folders
        resolved.deleted_folders
        resolved.version_vector
  pub device_profiles :
      Merges device_profile_kind local.device_profiles local.deleted_device_profiles d
        (find_all_device_profiles_ids local remote)
        review.device_profile_reviews
        resolution.device_profile_resolutions
        resolved.device_profiles
        resolved.deleted_device_profiles
        resolved.version_vector
  pub tag_groups : resolved.tag_groups ≡ local.tag_groups
  pub sync_target : resolved.sync_target ≡ local.sync_target
  pub sync_removal_pending : resolved.sync_removal_pending ≡ local.sync_removal_pending
  pub provider_credential_revocation_pending :
      resolved.provider_credential_revocation_pending ≡ local.provider_credential_revocation_pending

pub resolved-Combines :
    (local remote : Vault) (review : VaultSyncReview) (resolution : VaultSyncResolution)
    (d : String)
    → IsValid local
    → IsValid remote
    → IsReviewOf local remote review
    → (entry_states : Map (Reviewable PasswordEntry)) (tag_states : Map (Reviewable Tag))
      (folder_states : Map (Reviewable Folder)) (profile_states : Map (Reviewable DeviceProfile))
      (entries : List PasswordEntry × List Deleted) (tags : List Tag × List Deleted)
      (folders : List Folder × List Deleted) (profiles : List DeviceProfile × List Deleted)
    → resolve_entry_states review.entry_reviews resolution.entry_resolutions d ≡ ok entry_states
    → resolve_tag_states review.tag_reviews resolution.tag_resolutions d ≡ ok tag_states
    → resolve_folder_states review.folder_reviews resolution.folder_resolutions d ≡ ok folder_states
    → resolve_device_profile_states review.device_profile_reviews
        resolution.device_profile_resolutions d
      ≡ ok profile_states
    → build_resolved_vault_entries local remote entry_states ≡ ok entries
    → build_resolved_vault_tags local remote tag_states ≡ ok tags
    → build_resolved_vault_folders local remote folder_states ≡ ok folders
    → build_resolved_vault_device_profiles local remote profile_states ≡ ok profiles
    → Combines local remote review resolution d
        (resolved_vault local remote entries tags folders profiles d)
resolved-Combines local remote review resolution d valid remote_valid shown entry_states tag_states
      folder_states profile_states entries tags folders profiles e t f p entries_built tags_built
      folders_built profiles_built =
    record {
      version = refl;
      entries =
          entries-Merges local remote review resolution d valid remote_valid shown entry_states
            entries e entries_built;
      tags =
          tags-Merges local remote review resolution d valid remote_valid shown tag_states tags t
            tags_built;
      folders =
          folders-Merges local remote review resolution d valid remote_valid shown folder_states
            folders f folders_built;
      device_profiles =
          device_profiles-Merges local remote review resolution d valid remote_valid shown
            profile_states profiles p profiles_built;
      tag_groups = refl;
      sync_target = refl;
      sync_removal_pending = refl;
      provider_credential_revocation_pending = refl;
    }
