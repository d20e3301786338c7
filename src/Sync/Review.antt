-- ===== src/Sync/Review.antt =====
-- What the reviewer is shown: `findChangedEntries` of
-- packages/core/src/domain/sync/entry-review.utils.ts and its like.
pub mod Complete
use engr_serverless_pm.Base.{
  ℕ, suc, String, Bool, true, false, not, ◌&&◌, ◌||◌, Option, none, some, List, [], ◌∷◌, ◌++◌,
  Result, ok, err, ◌>>=◌, ◌>>◌, Error, invalid_vault_sync_review, broken_relation, both_states,
  repeated_item, trust_mismatch, tag_groups_differ, if◌then◌else◌, ◌==◌, ltb, filter, length,
  contains, set_of,
}
use engr_serverless_pm.Vault.{
  Vault, Deleted, Item, PasswordEntry, Tag, Folder, DeviceProfile, ids, deleted_item,
  device_profile_item, find_id,
}
use engr_serverless_pm.Sync.{
  VaultSyncReviewAction, use_remote, VaultSyncItemRelation, ReviewableVaultSyncItemRelation,
  Reviewable, present, deleted, missing, ReviewItem, Kind, entry_kind, tag_kind, folder_kind,
  device_profile_kind, tag_groups_json_equal,
}
use engr_serverless_pm.Sync.Relation.{item_relation}

module _ {A : Type 0} where
  -- the state that an active item and a tombstone make
  abbrev pub state_of : Error → Option A → Option Deleted → Result (Reviewable A)
  state_of both none none = ok missing
  state_of both (some a) none = ok (present a)
  state_of both none (some t) = ok (deleted t)
  state_of both (some a) (some t) = err both

  -- `findEntry`; `getEntryState` of the resolution is the same but for its error
  unfoldable pub find_state :
      Item A → (String → Error) → List A → List Deleted → String → Result (Reviewable A)
  find_state item both active tombstones i =
      state_of (both i) (find_id item i active) (find_id deleted_item i tombstones)

  -- `new Set([...])` over the identifiers of both vaults
  unfoldable pub find_all_ids : Item A → List A → List A → List Deleted → List Deleted → List String
  unfolding set_of
  find_all_ids item local remote local_deleted remote_deleted = set_of (
      ids item local
      ++ ids item remote
      ++ ids deleted_item local_deleted
      ++ ids deleted_item remote_deleted)

  abbrev pub review_as :
      String → ReviewableVaultSyncItemRelation → Reviewable A → Reviewable A → ReviewItem A
  review_as i relation local remote = record {
    id = i;
    relation = relation;
    local = local;
    remote = remote;
    preselected_action = use_remote;
  }

  -- The body of the loop: no row, a row, or an error.
  abbrev pub review_row :
      String → VaultSyncItemRelation → Reviewable A → Reviewable A → Result (List (ReviewItem A))
  review_row i VaultSyncItemRelation.equal local remote = ok []
  review_row i VaultSyncItemRelation.broken local remote =
      err (invalid_vault_sync_review (broken_relation i))
  review_row i VaultSyncItemRelation.remote_ahead local remote =
      ok (review_as i ReviewableVaultSyncItemRelation.remote_ahead local remote ∷ [])
  review_row i VaultSyncItemRelation.remote_only local remote =
      ok (review_as i ReviewableVaultSyncItemRelation.remote_only local remote ∷ [])

  -- the loop of `findChangedEntries`, over what finds an item in each vault
  unfoldable pub find_changed_from :
      Kind A
      → (String → Result (Reviewable A))
      → (String → Result (Reviewable A))
      → List String
      → Result (List (ReviewItem A))
  unfolding item_relation
  find_changed_from kind find_local find_remote [] = ok []
  find_changed_from kind find_local find_remote (i ∷ is) = do
    local ← find_local i
    remote ← find_remote i
    row ← review_row i (item_relation kind local remote) local remote
    rows ← find_changed_from kind find_local find_remote is
    ok (row ++ rows)

abbrev pub both : String → Error
both i = invalid_vault_sync_review (both_states i)

abbrev pub find_entry : Vault → String → Result (Reviewable PasswordEntry)
find_entry vault = find_state entry_kind.item both vault.entries vault.deleted_entries

abbrev pub find_all_entries_ids : Vault → Vault → List String
find_all_entries_ids local remote =
    find_all_ids entry_kind.item local.entries remote.entries local.deleted_entries
      remote.deleted_entries

unfoldable pub find_changed_entries : Vault → Vault → Result (List (ReviewItem PasswordEntry))
unfolding find_changed_from find_state find_all_ids
find_changed_entries local remote =
    find_changed_from entry_kind (find_entry local) (find_entry remote)
      (find_all_entries_ids local remote)

abbrev pub find_tag : Vault → String → Result (Reviewable Tag)
find_tag vault = find_state tag_kind.item both vault.tags vault.deleted_tags

abbrev pub find_all_tags_ids : Vault → Vault → List String
find_all_tags_ids local remote =
    find_all_ids tag_kind.item local.tags remote.tags local.deleted_tags remote.deleted_tags

unfoldable pub find_changed_tags : Vault → Vault → Result (List (ReviewItem Tag))
unfolding find_changed_from find_state find_all_ids
find_changed_tags local remote =
    find_changed_from tag_kind (find_tag local) (find_tag remote) (find_all_tags_ids local remote)

abbrev pub find_folder : Vault → String → Result (Reviewable Folder)
find_folder vault = find_state folder_kind.item both vault.folders vault.deleted_folders

abbrev pub find_all_folders_ids : Vault → Vault → List String
find_all_folders_ids local remote =
    find_all_ids folder_kind.item local.folders remote.folders local.deleted_folders
      remote.deleted_folders

unfoldable pub find_changed_folders : Vault → Vault → Result (List (ReviewItem Folder))
unfolding find_changed_from find_state find_all_ids
find_changed_folders local remote =
    if not (tag_groups_json_equal local.tag_groups remote.tag_groups)
    then err (invalid_vault_sync_review tag_groups_differ)
    else find_changed_from folder_kind (find_folder local) (find_folder remote)
        (find_all_folders_ids local remote)

abbrev pub first : {A : Type 0} → List A → Option A
first [] = none
first (x ∷ xs) = some x

-- `findDeviceProfile`, which refuses an identifier that is listed twice
unfoldable pub find_device_profile : Vault → String → Result (Reviewable DeviceProfile)
find_device_profile vault i =
    let profiles = filter (λ p. p.id == i) vault.device_profiles in
    let tombstones = filter (λ t. t.id == i) vault.deleted_device_profiles in
    if ltb 1 (length profiles) || ltb 1 (length tombstones)
    then err (invalid_vault_sync_review (repeated_item i))
    else state_of (both i) (first profiles) (first tombstones)

abbrev pub find_all_device_profiles_ids : Vault → Vault → List String
find_all_device_profiles_ids local remote =
    find_all_ids device_profile_kind.item local.device_profiles remote.device_profiles
      local.deleted_device_profiles remote.deleted_device_profiles

unfoldable pub find_changed_device_profiles :
    Vault → Vault → Result (List (ReviewItem DeviceProfile))
unfolding find_changed_from find_device_profile find_all_ids
find_changed_device_profiles local remote =
    find_changed_from device_profile_kind (find_device_profile local) (find_device_profile remote)
      (find_all_device_profiles_ids local remote)

-- Whether a device profile's state contradicts the trust state.
abbrev mismatches_trust : List String → List String → String → Reviewable DeviceProfile → Bool
mismatches_trust trusted historical i (present p) = not (contains trusted i)
mismatches_trust trusted historical i (deleted t) =
    contains trusted i || not (contains historical i)
mismatches_trust trusted historical i missing = false

-- the loop of `requireDeviceProfilesMatchTrust`
unfoldable pub require_match_trust_from :
    Vault → List String → List String → List String → Result (Unit {0})
unfolding find_device_profile
require_match_trust_from vault trusted historical [] = ok tt
require_match_trust_from vault trusted historical (i ∷ is) = do
  profile ← find_device_profile vault i
  (let rest = require_match_trust_from vault trusted historical is in
      if mismatches_trust trusted historical i profile
      then err (invalid_vault_sync_review (trust_mismatch i))
      else rest)

unfoldable pub require_device_profiles_match_trust :
    Vault → List String → List String → Result (Unit {0})
unfolding require_match_trust_from set_of
require_device_profiles_match_trust vault trusted historical =
    require_match_trust_from vault trusted historical (
      set_of (
        ids device_profile_item vault.device_profiles
        ++ ids deleted_item vault.deleted_device_profiles))
