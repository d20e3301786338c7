-- ===== src/Sync.antt =====
-- packages/core/src/domain/sync: what a reviewer is shown of two vaults that differ, and what the
-- reviewer's choices make of them. The source writes the same code four times, for entries, tags,
-- folders and device profiles; here it is written once, over a kind of item.
pub mod Relation
pub mod Review
pub mod Resolution
pub mod Apply
pub mod KeySlots
use engr_serverless_pm.Base.{
  ℕ, String, Bool, true, false, ◌&&◌, Option, none, some, List, [], ◌∷◌, ◌++◌, ◌==◌, nat_eq, all,
  ◌≡◌, refl,
}
use engr_serverless_pm.Versioning.{VersionVector, keys}
use engr_serverless_pm.Vault.{
  Item, Deleted, PasswordEntry, Tag, Folder, DeviceProfile, TagGroup, entry_item, tag_item,
  folder_item, device_profile_item,
}

-- `unsupported` stands for the runtime values outside the type, which the code tests for.
pub data VaultSyncReviewAction : Type 0 where
  use_local use_remote unsupported : VaultSyncReviewAction

pub data VaultSyncItemRelation : Type 0 where
  equal remote_ahead remote_only broken : VaultSyncItemRelation

pub data ReviewableVaultSyncItemRelation : Type 0 where
  remote_ahead remote_only : ReviewableVaultSyncItemRelation

-- `ReviewableEntry`, `ReviewableTag`, `ReviewableFolder` and `ReviewableDeviceProfile`
pub data Reviewable (A : Type 0) : Type 0 where
  present : A → Reviewable A
  deleted : Deleted → Reviewable A
  missing : Reviewable A

-- `EntryReviewItem` and its like
pub record ReviewItem (A : Type 0) : Type 0 where
  pub id : String
  pub relation : ReviewableVaultSyncItemRelation
  pub local : Reviewable A
  pub remote : Reviewable A
  pub preselected_action : VaultSyncReviewAction

-- `EntryReviewResolution` and its like
pub record ReviewResolution : Type 0 where
  pub id : String
  pub action : VaultSyncReviewAction

-- A kind of item: its identifier and vector, `{ ...item, versionVector }`, and whether two have the
-- same canonical JSON text. A new vector is the one that is read, and keeps the identifier.
pub record Kind (A : Type 0) : Type 0 where
  pub item : Item A
  pub open item use *
  pub with_version : A → VersionVector → A
  pub json_equal : A → A → Bool
  pub version-with_version : (a : A) (v : VersionVector) → version (with_version a v) ≡ v
  pub id-with_version : (a : A) (v : VersionVector) → id (with_version a v) ≡ id a

-- `getEntryVersionVector` and its like
unfoldable pub get_version_vector : {A : Type 0} → Kind A → Reviewable A → Option VersionVector
get_version_vector kind missing = none
get_version_vector kind (present a) = some (kind.version a)
get_version_vector kind (deleted t) = some t.version_vector

-- `vector ?? {}`
abbrev pub or_empty : Option VersionVector → VersionVector
or_empty none = []
or_empty (some v) = v

-- `v[deviceId]`, where a missing count differs from a count of 0
count_of : VersionVector → String → Option ℕ
count_of [] d = none
count_of ((k, n) ∷ v) d = elim (k == d) [ true ↦ some n | false ↦ count_of v d ]

abbrev same_count : Option ℕ → Option ℕ → Bool
same_count none none = true
same_count (some m) (some n) = nat_eq m n
same_count _ _ = false

-- `areJsonEqual` of packages/core/src/domain/common/json.utils.ts. Its text has the keys sorted, so
-- two values have one text when they agree field by field and two vectors when they have the same
-- counts; an undefined field is not in the text.
unfoldable pub are_vectors_json_equal : VersionVector → VersionVector → Bool
unfolding count_of
are_vectors_json_equal v w = all (λ d. same_count (count_of v d) (count_of w d)) (keys v ++ keys w)

abbrev pub same_texts : List String → List String → Bool
same_texts [] [] = true
same_texts (s ∷ ss) (t ∷ ts) = s == t && same_texts ss ts
same_texts _ _ = false

abbrev pub same_text? : Option String → Option String → Bool
same_text? none none = true
same_text? (some s) (some t) = s == t
same_text? _ _ = false

abbrev pub deleted_json_equal : Deleted → Deleted → Bool
deleted_json_equal a b =
    a.id == b.id
    && are_vectors_json_equal a.version_vector b.version_vector
    && nat_eq a.deleted_at b.deleted_at

abbrev pub reviewable_json_equal : {A : Type 0} → Kind A → Reviewable A → Reviewable A → Bool
reviewable_json_equal kind (present a) (present b) = kind.json_equal a b
reviewable_json_equal kind (deleted a) (deleted b) = deleted_json_equal a b
reviewable_json_equal kind missing missing = true
reviewable_json_equal kind _ _ = false

abbrev pub entry_kind : Kind PasswordEntry
entry_kind = record {
  item = entry_item;
  with_version = λ a v. record a { version_vector = v };
  json_equal = λ a b.
      a.id == b.id
      && a.password == b.password
      && a.login == b.login
      && same_texts a.tags b.tags
      && a.sanitized_url == b.sanitized_url
      && a.folder_id == b.folder_id
      && are_vectors_json_equal a.version_vector b.version_vector;
  version-with_version = λ a v. refl;
  id-with_version = λ a v. refl;
}

abbrev pub tag_kind : Kind Tag
tag_kind = record {
  item = tag_item;
  with_version = λ a v. record a { version_vector = v };
  json_equal = λ a b.
      a.id == b.id
      && a.name == b.name
      && a.group_id == b.group_id
      && a.color == b.color
      && nat_eq a.shade b.shade
      && nat_eq a.created_at b.created_at
      && are_vectors_json_equal a.version_vector b.version_vector;
  version-with_version = λ a v. refl;
  id-with_version = λ a v. refl;
}

abbrev pub folder_kind : Kind Folder
folder_kind = record {
  item = folder_item;
  with_version = λ a v. record a { version_vector = v };
  json_equal = λ a b.
      a.id == b.id
      && a.name == b.name
      && a.icon == b.icon
      && same_text? a.description b.description
      && same_text? a.parent_id b.parent_id
      && nat_eq a.created_at b.created_at
      && are_vectors_json_equal a.version_vector b.version_vector;
  version-with_version = λ a v. refl;
  id-with_version = λ a v. refl;
}

abbrev pub device_profile_kind : Kind DeviceProfile
device_profile_kind = record {
  item = device_profile_item;
  with_version = λ a v. record a { version_vector = v };
  json_equal = λ a b.
      a.id == b.id
      && a.name == b.name
      && nat_eq a.created_at b.created_at
      && are_vectors_json_equal a.version_vector b.version_vector;
  version-with_version = λ a v. refl;
  id-with_version = λ a v. refl;
}

abbrev pub tag_groups_json_equal : List TagGroup → List TagGroup → Bool
tag_groups_json_equal [] [] = true
tag_groups_json_equal (a ∷ l) (b ∷ r) =
    a.id == b.id
    && a.name == b.name
    && a.icon == b.icon
    && a.base_color == b.base_color
    && same_text? a.description b.description
    && tag_groups_json_equal l r
tag_groups_json_equal _ _ = false
