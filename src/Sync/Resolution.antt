-- ===== src/Sync/Resolution.antt =====
-- What the reviewer's choices make of the items: `resolveEntryStates` and
-- `buildResolvedVaultEntries` of packages/core/src/domain/sync/entry-resolution.utils.ts and their
-- like.
pub mod Choices
pub mod Resolved
pub mod Built
pub mod Fit
pub mod Merged
pub mod Total
use engr_serverless_pm.Base.{
  String, Bool, true, false, not, ◌&&◌, Option, none, some, List, [], ◌∷◌, Result, ok, err, ◌>>=◌,
  ◌>>◌, Map, map_get, map_set, map_has, Error, invalid_vault_sync_resolution, not_required,
  multiple_resolutions, missing_resolution, local_absence, active_and_deleted, unsupported_action,
  if◌then◌else◌, ◌==◌, any,
}
use engr_serverless_pm.Versioning.{VersionVector, increment_version_vector, merge_version_vectors}
use engr_serverless_pm.Vault.{Vault, Deleted, PasswordEntry, Tag, Folder, DeviceProfile}
use engr_serverless_pm.Sync.{
  VaultSyncReviewAction, use_local, use_remote, unsupported, ReviewableVaultSyncItemRelation,
  Reviewable, present, deleted, missing, ReviewItem, ReviewResolution, Kind, get_version_vector,
  or_empty, entry_kind, tag_kind, folder_kind, device_profile_kind,
}
use engr_serverless_pm.Sync.Review.{
  find_state, find_all_entries_ids, find_all_tags_ids, find_all_folders_ids,
  find_all_device_profiles_ids,
}

unfoldable pub assert_supported_action : VaultSyncReviewAction → Result (Unit {0})
assert_supported_action use_local = ok tt
assert_supported_action use_remote = ok tt
assert_supported_action unsupported = err (invalid_vault_sync_resolution unsupported_action)

-- the loop of `createEntryResolutionMap`
unfoldable pub create_resolution_map_from :
    Map ReviewResolution → List ReviewResolution → Result (Map ReviewResolution)
unfolding assert_supported_action map_set map_has
create_resolution_map_from by_id [] = ok by_id
create_resolution_map_from by_id (r ∷ rs) = do
  assert_supported_action r.action
  (let rest = create_resolution_map_from (map_set by_id r.id r) rs in
      if map_has by_id r.id
      then err (invalid_vault_sync_resolution (multiple_resolutions r.id))
      else rest)

unfoldable pub create_resolution_map : List ReviewResolution → Result (Map ReviewResolution)
unfolding create_resolution_map_from
create_resolution_map = create_resolution_map_from []

abbrev pub is_remote_only : ReviewableVaultSyncItemRelation → Bool
is_remote_only ReviewableVaultSyncItemRelation.remote_only = true
is_remote_only ReviewableVaultSyncItemRelation.remote_ahead = false

abbrev pub is_use_local : VaultSyncReviewAction → Bool
is_use_local use_local = true
is_use_local _ = false

unfoldable pub stamp_resolved_version_vector :
    Option VersionVector → Option VersionVector → String → VersionVector
stamp_resolved_version_vector local remote device_id =
    increment_version_vector (merge_version_vectors (or_empty local) (or_empty remote)) device_id

abbrev pub resolution_of : Map ReviewResolution → String → Result ReviewResolution
resolution_of by_id i = elim (map_get by_id i) [
  | none ↦ err (invalid_vault_sync_resolution (missing_resolution i))
  | some resolution ↦ ok resolution
]

abbrev pub held_twice : String → Error
held_twice i = invalid_vault_sync_resolution (active_and_deleted i)

module _ {A : Type 0} where
  -- the first loop of `resolveEntryStates`
  unfoldable pub require_reviewed : List (ReviewItem A) → List ReviewResolution → Result (Unit {0})
  require_reviewed reviews [] = ok tt
  require_reviewed reviews (r ∷ rs) =
      let rest = require_reviewed reviews rs in
      if not (any (λ review. review.id == r.id) reviews)
      then err (invalid_vault_sync_resolution (not_required r.id))
      else rest

  unfoldable pub select_state : ReviewItem A → ReviewResolution → Result (Reviewable A)
  select_state review resolution =
      if is_remote_only review.relation && is_use_local resolution.action
      then err (invalid_vault_sync_resolution (local_absence review.id))
      else ok (if is_use_local resolution.action then review.local else review.remote)

  unfoldable pub stamp_state :
      Kind A → Reviewable A → Reviewable A → Reviewable A → String → Reviewable A
  unfolding stamp_resolved_version_vector get_version_vector
  stamp_state kind missing local remote device_id = missing
  stamp_state kind (present a) local remote device_id = present (
      kind.with_version a (
        stamp_resolved_version_vector (get_version_vector kind local)
          (get_version_vector kind remote) device_id))
  stamp_state kind (deleted t) local remote device_id = deleted (record t {
    version_vector =
        stamp_resolved_version_vector (get_version_vector kind local)
          (get_version_vector kind remote) device_id;
  })

  -- the second loop of `resolveEntryStates`
  unfoldable pub resolve_from :
      Kind A
      → Map ReviewResolution
      → String
      → Map (Reviewable A)
      → List (ReviewItem A)
      → Result (Map (Reviewable A))
  unfolding map_get map_set select_state stamp_state
  resolve_from kind by_id device_id resolved [] = ok resolved
  resolve_from kind by_id device_id resolved (review ∷ reviews) = do
    resolution ← resolution_of by_id review.id
    selected ← select_state review resolution
    resolve_from kind by_id device_id
        (map_set resolved review.id
          (stamp_state kind selected review.local review.remote device_id))
        reviews

  -- `resolveEntryStates` and its like
  unfoldable pub resolve_states :
      Kind A → List (ReviewItem A) → List ReviewResolution → String → Result (Map (Reviewable A))
  unfolding create_resolution_map require_reviewed resolve_from
  resolve_states kind reviews resolutions device_id = do
    by_id ← create_resolution_map resolutions
    require_reviewed reviews resolutions
    resolve_from kind by_id device_id [] reviews

  -- `getEntryState`
  unfoldable pub get_state : Kind A → List A → List Deleted → String → Result (Reviewable A)
  unfolding find_state
  get_state kind active tombstones i = find_state kind.item held_twice active tombstones i

  -- `resolvedStateById.get(id) ?? getEntryState(localVault, id)`
  abbrev pub state_or_local :
      Kind A → List A → List Deleted → Map (Reviewable A) → String → Result (Reviewable A)
  state_or_local kind active tombstones resolved i = elim (map_get resolved i) [
    | none ↦ get_state kind active tombstones i
    | some state ↦ ok state
  ]

  -- `entries.push(...)` or `deletedEntries.push(...)`, before what follows
  abbrev pub push_state : Reviewable A → List A × List Deleted → List A × List Deleted
  push_state (present a) (active, tombstones) = (a ∷ active, tombstones)
  push_state (deleted t) (active, tombstones) = (active, t ∷ tombstones)
  push_state missing (active, tombstones) = (active, tombstones)

  -- the loop of `buildResolvedVaultEntries`
  unfoldable pub build_from :
      Kind A
      → List A
      → List Deleted
      → Map (Reviewable A)
      → List String
      → Result (List A × List Deleted)
  unfolding map_get get_state
  build_from kind active tombstones resolved [] = ok ([], [])
  build_from kind active tombstones resolved (i ∷ is) = do
    state ← state_or_local kind active tombstones resolved i
    rest ← build_from kind active tombstones resolved is
    ok (push_state state rest)

unfoldable pub resolve_entry_states :
    List (ReviewItem PasswordEntry)
    → List ReviewResolution
    → String
    → Result (Map (Reviewable PasswordEntry))
unfolding resolve_states
resolve_entry_states = resolve_states entry_kind

unfoldable pub build_resolved_vault_entries :
    Vault → Vault → Map (Reviewable PasswordEntry) → Result (List PasswordEntry × List Deleted)
unfolding build_from
build_resolved_vault_entries local remote resolved =
    build_from entry_kind local.entries local.deleted_entries resolved
      (find_all_entries_ids local remote)

unfoldable pub resolve_tag_states :
    List (ReviewItem Tag) → List ReviewResolution → String → Result (Map (Reviewable Tag))
unfolding resolve_states
resolve_tag_states = resolve_states tag_kind

unfoldable pub build_resolved_vault_tags :
    Vault → Vault → Map (Reviewable Tag) → Result (List Tag × List Deleted)
unfolding build_from
build_resolved_vault_tags local remote resolved =
    build_from tag_kind local.tags local.deleted_tags resolved (find_all_tags_ids local remote)

unfoldable pub resolve_folder_states :
    List (ReviewItem Folder) → List ReviewResolution → String → Result (Map (Reviewable Folder))
unfolding resolve_states
resolve_folder_states = resolve_states folder_kind

unfoldable pub build_resolved_vault_folders :
    Vault → Vault → Map (Reviewable Folder) → Result (List Folder × List Deleted)
unfolding build_from
build_resolved_vault_folders local remote resolved =
    build_from folder_kind local.folders local.deleted_folders resolved
      (find_all_folders_ids local remote)

unfoldable pub resolve_device_profile_states :
    List (ReviewItem DeviceProfile)
    → List ReviewResolution
    → String
    → Result (Map (Reviewable DeviceProfile))
unfolding resolve_states
resolve_device_profile_states = resolve_states device_profile_kind

unfoldable pub build_resolved_vault_device_profiles :
    Vault → Vault → Map (Reviewable DeviceProfile) → Result (List DeviceProfile × List Deleted)
unfolding build_from
build_resolved_vault_device_profiles local remote resolved =
    build_from device_profile_kind local.device_profiles local.deleted_device_profiles resolved
      (find_all_device_profiles_ids local remote)
