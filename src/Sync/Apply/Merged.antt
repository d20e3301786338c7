-- ===== src/Sync/Apply/Merged.antt =====
-- Each collection of two valid vaults, reviewed, resolved and built, merges the two sides.
use engr_serverless_pm.Base.{
  String, ◌≡◌, refl, inl, inr, Bool, ◌||◌, List, [], ◌∷◌, ◌++◌, ok, arith, ◌==◌, Bool-cases, ltb,
  length, filter, find, Map, Distinct, set_of-Distinct,
}
use engr_serverless_pm.Versioning.{VersionVector, increment_version_vector, merge_version_vectors}
use engr_serverless_pm.Vault.{
  Vault, Item, ids, Deleted, PasswordEntry, Tag, Folder, DeviceProfile, device_profile_item,
  deleted_item,
}
use engr_serverless_pm.Vault.Validity.{IsValid}
use engr_serverless_pm.Sync.{
  Reviewable, ReviewItem, entry_kind, tag_kind, folder_kind, device_profile_kind,
  tag_groups_json_equal,
}
use engr_serverless_pm.Sync.Review.{
  find_state, find_all_ids, find_changed_from, find_entry, find_tag, find_folder,
  find_device_profile, both, first, find_all_entries_ids, find_all_tags_ids, find_all_folders_ids,
  find_all_device_profiles_ids, find_changed_entries, find_changed_tags, find_changed_folders,
  find_changed_device_profiles,
}
use engr_serverless_pm.Sync.Resolution.{
  resolve_entry_states, resolve_tag_states, resolve_folder_states, resolve_device_profile_states,
  build_resolved_vault_entries, build_resolved_vault_tags, build_resolved_vault_folders,
  build_resolved_vault_device_profiles,
}
use engr_serverless_pm.Sync.Resolution.Fit.{find_state-Fits}
use engr_serverless_pm.Sync.Resolution.Merged.{Merges, built-Merges}
use engr_serverless_pm.Sync.Apply.{VaultSyncReview, VaultSyncResolution}

-- The rows are those that the reviews of the two vaults find.
pub record IsReviewOf (local remote : Vault) (review : VaultSyncReview) : Type 0 where
  pub entries : find_changed_entries local remote ≡ ok review.entry_reviews
  pub tags : find_changed_tags local remote ≡ ok review.tag_reviews
  pub folders : find_changed_folders local remote ≡ ok review.folder_reviews
  pub device_profiles : find_changed_device_profiles local remote ≡ ok review.device_profile_reviews

pub find_all_ids-Distinct :
    {A : Type 0} (item : Item A) (local remote : List A)
    (local_deleted remote_deleted : List Deleted)
    → Distinct (find_all_ids item local remote local_deleted remote_deleted)
unfolding find_all_ids
find_all_ids-Distinct item local remote local_deleted remote_deleted = set_of-Distinct (
    ids item local
    ++ ids item remote
    ++ ids deleted_item local_deleted
    ++ ids deleted_item remote_deleted)

first-filter : {A : Type 0} (p : A → Bool) (xs : List A) → first (filter p xs) ≡ find p xs
first-filter p [] = refl
first-filter p (x ∷ xs) = ground (arith, first-filter p xs)

-- A device profile that is found is the one that a plain search finds.
find_device_profile-state :
    (vault : Vault) (i : String) (s : Reviewable DeviceProfile)
    → find_device_profile vault i ≡ ok s
    → find_state device_profile_item both vault.device_profiles vault.deleted_device_profiles i
      ≡ ok s
unfolding find_device_profile find_state
find_device_profile-state vault i s e =
    let profiles = filter (λ p. p.id == i) vault.device_profiles in
    let tombstones = filter (λ t. t.id == i) vault.deleted_device_profiles in
    elim (Bool-cases (ltb 1 (length profiles) || ltb 1 (length tombstones))) [
      | inl repeated ↦ absurd (ground arith)
      | inr once ↦ ground (
        arith,
        first-filter (λ p. p.id == i) vault.device_profiles,
        first-filter (λ t. t.id == i) vault.deleted_device_profiles,
      )
    ]

-- The folders are reviewed as the other items are, once the tag groups are the same.
pub folders_shown :
    (local remote : Vault) (rows : List (ReviewItem Folder))
    → find_changed_folders local remote ≡ ok rows
    → find_changed_from folder_kind
        (find_folder local)
        (find_folder remote)
        (find_all_folders_ids local remote)
      ≡ ok rows
unfolding find_changed_folders
folders_shown local remote rows e =
    elim (Bool-cases (tag_groups_json_equal local.tag_groups remote.tag_groups)) [
      | inl same ↦ ground arith
      | inr other ↦ absurd (ground arith)
    ]

module _ (local remote : Vault) (review : VaultSyncReview) (resolution : VaultSyncResolution)
    (d : String) (valid : IsValid local) (remote_valid : IsValid remote)
    (shown : IsReviewOf local remote review) where
  abbrev pub agreed_vector : VersionVector
  agreed_vector =
      increment_version_vector (merge_version_vectors local.version_vector remote.version_vector) d

  pub entries-Merges :
      (resolved : Map (Reviewable PasswordEntry)) (built : List PasswordEntry × List Deleted)
      → resolve_entry_states review.entry_reviews resolution.entry_resolutions d ≡ ok resolved
      → build_resolved_vault_entries local remote resolved ≡ ok built
      → Merges entry_kind local.entries local.deleted_entries d
          (find_all_entries_ids local remote)
          review.entry_reviews
          resolution.entry_resolutions
          built.0
          built.1
          agreed_vector
  unfolding find_changed_entries resolve_entry_states build_resolved_vault_entries
  entries-Merges resolved built done made =
      built-Merges entry_kind local.version_vector remote.version_vector d (find_entry local)
        (find_entry remote) (λ i s. find_state-Fits entry_kind _ _ _ both i s valid.entries)
        (λ i s. find_state-Fits entry_kind _ _ _ both i s remote_valid.entries) local.entries
        local.deleted_entries (find_all_entries_ids local remote) review.entry_reviews
        resolution.entry_resolutions resolved built valid.entries
        (find_all_ids-Distinct entry_kind.item local.entries remote.entries local.deleted_entries
          remote.deleted_entries)
        shown.entries done made

  pub tags-Merges :
      (resolved : Map (Reviewable Tag)) (built : List Tag × List Deleted)
      → resolve_tag_states review.tag_reviews resolution.tag_resolutions d ≡ ok resolved
      → build_resolved_vault_tags local remote resolved ≡ ok built
      → Merges tag_kind local.tags local.deleted_tags d
          (find_all_tags_ids local remote)
          review.tag_reviews
          resolution.tag_resolutions
          built.0
          built.1
          agreed_vector
  unfolding find_changed_tags resolve_tag_states build_resolved_vault_tags
  tags-Merges resolved built done made =
      built-Merges tag_kind local.version_vector remote.version_vector d (find_tag local)
        (find_tag remote) (λ i s. find_state-Fits tag_kind _ _ _ both i s valid.tags)
        (λ i s. find_state-Fits tag_kind _ _ _ both i s remote_valid.tags) local.tags
        local.deleted_tags (find_all_tags_ids local remote) review.tag_reviews
        resolution.tag_resolutions resolved built valid.tags
        (find_all_ids-Distinct tag_kind.item local.tags remote.tags local.deleted_tags
          remote.deleted_tags)
        shown.tags done made

  pub folders-Merges :
      (resolved : Map (Reviewable Folder)) (built : List Folder × List Deleted)
      → resolve_folder_states review.folder_reviews resolution.folder_resolutions d ≡ ok resolved
      → build_resolved_vault_folders local remote resolved ≡ ok built
      → Merges folder_kind local.folders local.deleted_folders d
          (find_all_folders_ids local remote)
          review.folder_reviews
          resolution.folder_resolutions
          built.0
          built.1
          agreed_vector
  unfolding find_changed_folders resolve_folder_states build_resolved_vault_folders
  folders-Merges resolved built done made =
      built-Merges folder_kind local.version_vector remote.version_vector d (find_folder local)
        (find_folder remote) (λ i s. find_state-Fits folder_kind _ _ _ both i s valid.folders)
        (λ i s. find_state-Fits folder_kind _ _ _ both i s remote_valid.folders) local.folders
        local.deleted_folders (find_all_folders_ids local remote) review.folder_reviews
        resolution.folder_resolutions resolved built valid.folders
        (find_all_ids-Distinct folder_kind.item local.folders remote.folders local.deleted_folders
          remote.deleted_folders)
        (folders_shown local remote review.folder_reviews shown.folders) done made

  pub device_profiles-Merges :
      (resolved : Map (Reviewable DeviceProfile)) (built : List DeviceProfile × List Deleted)
      → resolve_device_profile_states review.device_profile_reviews
          resolution.device_profile_resolutions d
        ≡ ok resolved
      → build_resolved_vault_device_profiles local remote resolved ≡ ok built
      → Merges device_profile_kind local.device_profiles local.deleted_device_profiles d
          (find_all_device_profiles_ids local remote)
          review.device_profile_reviews
          resolution.device_profile_resolutions
          built.0
          built.1
          agreed_vector
  unfolding find_changed_device_profiles resolve_device_profile_states
      build_resolved_vault_device_profiles
  device_profiles-Merges resolved built done made =
      built-Merges device_profile_kind local.version_vector remote.version_vector d
        (find_device_profile local) (find_device_profile remote)
        (λ i s e.
          find_state-Fits device_profile_kind _ _ _ both i s valid.device_profiles
            (find_device_profile-state local i s e))
        (λ i s e.
          find_state-Fits device_profile_kind _ _ _ both i s remote_valid.device_profiles
            (find_device_profile-state remote i s e))
        local.device_profiles local.deleted_device_profiles
        (find_all_device_profiles_ids local remote) review.device_profile_reviews
        resolution.device_profile_resolutions resolved built valid.device_profiles
        (find_all_ids-Distinct device_profile_kind.item local.device_profiles remote.device_profiles
          local.deleted_device_profiles remote.deleted_device_profiles)
        shown.device_profiles done made
