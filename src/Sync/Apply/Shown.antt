-- ===== src/Sync/Apply/Shown.antt =====
-- What the review of two vaults shows, of every item there can be.
use engr_serverless_pm.Base.{
  String, ◌≡◌, refl, inl, inr, Bool, false, ◌||◌, List, [], ◌∷◌, ◌++◌, Result, ok, Error, arith,
  Bool-cases, filter, ◌==◌, any, contains, contains-set_of, contains-append, Distinct,
  find-eq-none_of_any,
}
use engr_serverless_pm.Vault.{Vault, Item, Deleted, ids, deleted_item, device_profile_item, some_id}
use engr_serverless_pm.Vault.Collections.{All, contains-ids}
use engr_serverless_pm.Sync.{
  Reviewable, missing, ReviewItem, Kind, entry_kind, tag_kind, folder_kind, device_profile_kind,
}
use engr_serverless_pm.Sync.Review.{
  both, find_state, find_all_ids, find_changed_from, find_entry, find_tag, find_folder,
  find_device_profile, find_all_entries_ids, find_all_tags_ids, find_all_folders_ids,
  find_all_device_profiles_ids, find_changed_entries, find_changed_tags,
  find_changed_device_profiles,
}
use engr_serverless_pm.Sync.Review.Complete.{
  row_ids, IsFaithful, IsUnchanged, find_changed-ShowsAll,
}
use engr_serverless_pm.Sync.Apply.{VaultSyncReview}
use engr_serverless_pm.Sync.Apply.Merged.{IsReviewOf, find_all_ids-Distinct, folders_shown}

-- The rows are faithful, one for an item, and an item without a row is unchanged.
pub record Shows {A : Type 0} (kind : Kind A)
    (find_local find_remote : String → Result (Reviewable A)) (rows : List (ReviewItem A))
    : Type 0 where
  pub faithful : All (IsFaithful kind find_local find_remote) rows
  pub once : Distinct (row_ids rows)
  pub rest :
      (i : String) → contains (row_ids rows) i ≡ false → IsUnchanged kind find_local find_remote i

module _ {A : Type 0} (item : Item A) (local remote : List A)
    (local_deleted remote_deleted : List Deleted) (i : String)
    (absent : contains (find_all_ids item local remote local_deleted remote_deleted) i
      ≡ false) where
  nowhere :
      (some_id item i local
        || some_id item i remote
        || some_id deleted_item i local_deleted
        || some_id deleted_item i remote_deleted)
      ≡ false
  unfolding find_all_ids
  nowhere =
      let l = ids item local in
      let r = ids item remote in
      let ld = ids deleted_item local_deleted in
      let rd = ids deleted_item remote_deleted in
      ground (
        arith,
        absent,
        contains-set_of (l ++ r ++ ld ++ rd) i,
        contains-append (l ++ r ++ ld) rd i,
        contains-append (l ++ r) ld i,
        contains-append l r i,
        contains-ids item local i,
        contains-ids item remote i,
        contains-ids deleted_item local_deleted i,
        contains-ids deleted_item remote_deleted i,
      )

  absent_local : some_id item i local ≡ false
  absent_local = ground (arith, nowhere)

  absent_remote : some_id item i remote ≡ false
  absent_remote = ground (arith, nowhere)

  absent_local_deleted : some_id deleted_item i local_deleted ≡ false
  absent_local_deleted = ground (arith, nowhere)

  absent_remote_deleted : some_id deleted_item i remote_deleted ≡ false
  absent_remote_deleted = ground (arith, nowhere)

  both_missing :
      (fault : String → Error)
      → (find_state item fault local local_deleted i ≡ ok missing)
        × (find_state item fault remote remote_deleted i ≡ ok missing)
  unfolding find_state
  both_missing fault = (
    ground (
      arith,
      find-eq-none_of_any (λ a. item.id a == i) local absent_local,
      find-eq-none_of_any (λ t. t.id == i) local_deleted absent_local_deleted,
    ),
    ground (
      arith,
      find-eq-none_of_any (λ a. item.id a == i) remote absent_remote,
      find-eq-none_of_any (λ t. t.id == i) remote_deleted absent_remote_deleted,
    ),
  )

filter-nil : {A : Type 0} (p : A → Bool) (xs : List A) → any p xs ≡ false → filter p xs ≡ []
filter-nil p [] h = refl
filter-nil p (x ∷ xs) h = ground (arith, filter-nil p xs)

profile_missing :
    (vault : Vault) (i : String)
    → some_id device_profile_item i vault.device_profiles ≡ false
    → some_id deleted_item i vault.deleted_device_profiles ≡ false
    → find_device_profile vault i ≡ ok missing
unfolding find_device_profile
profile_missing vault i h k =
    rw
      (
        filter-nil (λ p. p.id == i) vault.device_profiles h,
        filter-nil (λ t. t.id == i) vault.deleted_device_profiles k,
      )
      refl

profiles_missing :
    (local remote : Vault) (i : String)
    → contains (find_all_device_profiles_ids local remote) i ≡ false
    → (find_device_profile local i ≡ ok missing) × (find_device_profile remote i ≡ ok missing)
profiles_missing local remote i absent =
    let l = local.device_profiles in
    let r = remote.device_profiles in
    let ld = local.deleted_device_profiles in
    let rd = remote.deleted_device_profiles in
    (
      profile_missing local i (absent_local device_profile_item l r ld rd i absent)
          (absent_local_deleted device_profile_item l r ld rd i absent),
      profile_missing remote i (absent_remote device_profile_item l r ld rd i absent)
          (absent_remote_deleted device_profile_item l r ld rd i absent),
    )

shown :
    {A : Type 0} (kind : Kind A) (find_local find_remote : String → Result (Reviewable A))
    (is : List String) (rows : List (ReviewItem A))
    → Distinct is
    → ((i : String)
        → contains is i ≡ false
        → (find_local i ≡ ok missing) × (find_remote i ≡ ok missing))
    → find_changed_from kind find_local find_remote is ≡ ok rows
    → Shows kind find_local find_remote rows
shown kind find_local find_remote is rows distinct outside e =
    let all = find_changed-ShowsAll kind find_local find_remote is rows e in
    record {
      faithful = all.faithful;
      once = all.once distinct;
      rest = λ i none_shown. elim (Bool-cases (contains is i)) [
        | inl listed ↦ all.rest i listed none_shown
        | inr absent ↦ let (l, r) = outside i absent in (missing, missing, l, r, refl)
      ];
    }

-- What a review shows of the four kinds of items.
pub record ShowsVaults (local remote : Vault) (review : VaultSyncReview) : Type 0 where
  pub entries : Shows entry_kind (find_entry local) (find_entry remote) review.entry_reviews
  pub tags : Shows tag_kind (find_tag local) (find_tag remote) review.tag_reviews
  pub folders : Shows folder_kind (find_folder local) (find_folder remote) review.folder_reviews
  pub device_profiles :
      Shows device_profile_kind
        (find_device_profile local)
        (find_device_profile remote)
        review.device_profile_reviews

-- A review that is not refused shows each item that differs, once, and nothing else.
pub review-ShowsVaults :
    (local remote : Vault) (review : VaultSyncReview)
    → IsReviewOf local remote review
    → ShowsVaults local remote review
unfolding find_changed_entries find_changed_tags find_changed_device_profiles
review-ShowsVaults local remote review rows = record {
  entries =
      shown entry_kind (find_entry local) (find_entry remote) (find_all_entries_ids local remote) _
        (find_all_ids-Distinct entry_kind.item local.entries remote.entries local.deleted_entries
          remote.deleted_entries)
        (λ i absent.
          both_missing entry_kind.item local.entries remote.entries local.deleted_entries
            remote.deleted_entries i absent both)
        rows.entries;
  tags =
      shown tag_kind (find_tag local) (find_tag remote) (find_all_tags_ids local remote) _
        (find_all_ids-Distinct tag_kind.item local.tags remote.tags local.deleted_tags
          remote.deleted_tags)
        (λ i absent.
          both_missing tag_kind.item local.tags remote.tags local.deleted_tags remote.deleted_tags i
            absent both)
        rows.tags;
  folders =
      shown folder_kind (find_folder local) (find_folder remote) (find_all_folders_ids local remote)
        _
        (find_all_ids-Distinct folder_kind.item local.folders remote.folders local.deleted_folders
          remote.deleted_folders)
        (λ i absent.
          both_missing folder_kind.item local.folders remote.folders local.deleted_folders
            remote.deleted_folders i absent both)
        (folders_shown local remote _ rows.folders);
  device_profiles =
      shown device_profile_kind (find_device_profile local) (find_device_profile remote)
        (find_all_device_profiles_ids local remote) _
        (find_all_ids-Distinct device_profile_kind.item local.device_profiles remote.device_profiles
          local.deleted_device_profiles remote.deleted_device_profiles)
        (λ i absent. profiles_missing local remote i absent) rows.device_profiles;
}
