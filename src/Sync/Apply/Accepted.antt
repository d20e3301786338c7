-- ===== src/Sync/Apply/Accepted.antt =====
-- What is left to refuse a resolution whose choices are those that the review needs.
use engr_serverless_pm.Base.{String, ◌≡◌, refl, ◌>>◌, inl, inr, List, ok, arith, Bool-cases}
use engr_serverless_pm.Vault.{Vault, Folder}
use engr_serverless_pm.Vault.Validity.{IsValid}
use engr_serverless_pm.Sync.{
  ReviewItem, entry_kind, tag_kind, folder_kind, device_profile_kind, tag_groups_json_equal,
}
use engr_serverless_pm.Sync.Review.{
  find_all_entries_ids, find_all_tags_ids, find_all_folders_ids, find_all_device_profiles_ids,
  find_changed_folders,
}
use engr_serverless_pm.Sync.Resolution.{
  resolve_entry_states, resolve_tag_states, resolve_folder_states, resolve_device_profile_states,
  build_resolved_vault_entries, build_resolved_vault_tags, build_resolved_vault_folders,
  build_resolved_vault_device_profiles,
}
use engr_serverless_pm.Sync.Resolution.Resolved.{Accepts, resolve_states_of_Accepts}
use engr_serverless_pm.Sync.Resolution.Total.{build_from-ok}
use engr_serverless_pm.Sync.Apply.Merged.{IsReviewOf}
use engr_serverless_pm.Sync.Apply.Combined.{Combines, resolved-Combines}
use engr_serverless_pm.Sync.Apply.{
  VaultSyncReview, VaultSyncResolution, resolved_vault, require_same_tag_groups, require_compatible,
  apply_vault_sync_resolution,
}

-- Each of the four lists of choices is the one that its rows need.
pub record AcceptsAll (review : VaultSyncReview) (resolution : VaultSyncResolution) : Type 0 where
  pub entries : Accepts review.entry_reviews resolution.entry_resolutions
  pub tags : Accepts review.tag_reviews resolution.tag_resolutions
  pub folders : Accepts review.folder_reviews resolution.folder_resolutions
  pub device_profiles : Accepts review.device_profile_reviews resolution.device_profile_resolutions

same_groups_of_shown :
    (local remote : Vault) (rows : List (ReviewItem Folder))
    → find_changed_folders local remote ≡ ok rows
    → require_same_tag_groups local remote ≡ ok tt
unfolding find_changed_folders
same_groups_of_shown local remote rows e =
    elim (Bool-cases (tag_groups_json_equal local.tag_groups remote.tag_groups)) [
      | inl same ↦ rw same refl
      | inr other ↦ absurd (ground arith)
    ]

-- For two valid vaults and the rows that their review finds, choices that are the ones that the four
-- lists of rows need make a vault, whose vector is the merge of the two counted once by the device,
-- and in which each reviewed item has the state chosen for it, stamped, and every other item of the
-- review's list is as it was locally; the tag groups and the synchronization state are the local ones.
-- Applying the choices gives that vault, unless its references are incompatible, which is then the
-- error.
pub apply_of_AcceptsAll :
    (normalized_name : String → String) (local remote : Vault) (review : VaultSyncReview)
    (resolution : VaultSyncResolution) (d : String)
    → IsValid local
    → IsValid remote
    → IsReviewOf local remote review
    → AcceptsAll review resolution
    → (resolved : Vault) × Combines local remote review resolution d resolved
      × (apply_vault_sync_resolution normalized_name local remote review resolution d
          ≡ (require_compatible normalized_name resolved >> ok resolved))
unfolding apply_vault_sync_resolution resolve_entry_states resolve_tag_states resolve_folder_states
    resolve_device_profile_states build_resolved_vault_entries build_resolved_vault_tags
    build_resolved_vault_folders build_resolved_vault_device_profiles
apply_of_AcceptsAll normalized_name local remote review resolution d valid remote_valid shown
      accepts =
    let (entry_states, e) =
      resolve_states_of_Accepts entry_kind d review.entry_reviews resolution.entry_resolutions
        accepts.entries in
    let (tag_states, t) =
      resolve_states_of_Accepts tag_kind d review.tag_reviews resolution.tag_resolutions
        accepts.tags in
    let (folder_states, f) =
      resolve_states_of_Accepts folder_kind d review.folder_reviews resolution.folder_resolutions
        accepts.folders in
    let (profile_states, p) =
      resolve_states_of_Accepts device_profile_kind d review.device_profile_reviews
        resolution.device_profile_resolutions accepts.device_profiles in
    let (entries, entries_built) =
      build_from-ok entry_kind _ _ _ valid.entries entry_states
        (find_all_entries_ids local remote) in
    let (tags, tags_built) =
      build_from-ok tag_kind _ _ _ valid.tags tag_states (find_all_tags_ids local remote) in
    let (folders, folders_built) =
      build_from-ok folder_kind _ _ _ valid.folders folder_states
        (find_all_folders_ids local remote) in
    let (profiles, profiles_built) =
      build_from-ok device_profile_kind _ _ _ valid.device_profiles profile_states
        (find_all_device_profiles_ids local remote) in
    (
      resolved_vault local remote entries tags folders profiles d,
      resolved-Combines local remote review resolution d valid remote_valid shown entry_states
          tag_states folder_states profile_states entries tags folders profiles e t f p
          entries_built tags_built folders_built profiles_built,
      rw
          (
            e,
            t,
            f,
            p,
            entries_built,
            tags_built,
            folders_built,
            profiles_built,
            same_groups_of_shown local remote review.folder_reviews shown.folders,
          )
          refl,
    )
