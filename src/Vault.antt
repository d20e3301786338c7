-- ===== src/Vault.antt =====
-- packages/core/src/domain/vault/vault.ts and the types that it names: what a vault holds. Its
-- children are the mutations and policies of packages/core/src/domain/vault.
pub mod Collections
pub mod Sound
pub mod Entries
pub mod Tags
pub mod Folders
pub mod Devices
pub mod SyncConfig
pub mod Identity
pub mod TagReferences
pub mod Organization
pub mod Tree
pub mod Validity
pub mod History
use engr_serverless_pm.Base.{
  ℕ, String, Bool, not, Option, List, [], ◌∷◌, map, ◌==◌, if◌then◌else◌, any, find, filter,
}
use engr_serverless_pm.Versioning.{VersionVector}
use engr_serverless_pm.Snapshot.{VaultSnapshotIdentity, VaultSnapshot}

-- The four tombstone types (`DeletedPasswordEntry`, `DeletedTag`, `DeletedFolder`,
-- `DeletedDeviceProfile`) have the same fields.
pub record Deleted : Type 0 where
  pub id : String
  pub version_vector : VersionVector
  pub deleted_at : ℕ

pub record PasswordEntryInput : Type 0 where
  pub password : String
  pub login : String
  pub tags : List String
  pub sanitized_url : String
  pub folder_id : String

pub record PasswordEntry : Type 0 where
  pub id : String
  pub input : PasswordEntryInput
  pub open input use *
  pub version_vector : VersionVector

pub record TagInput : Type 0 where
  pub id : String
  pub name : String
  pub group_id : String
  pub color : String
  pub shade : ℕ
  pub created_at : ℕ

pub record Tag : Type 0 where
  pub input : TagInput
  pub open input use *
  pub version_vector : VersionVector

pub record FolderInput : Type 0 where
  pub id : String
  pub name : String
  pub icon : String
  pub description : Option String
  pub parent_id : Option String
  pub created_at : ℕ

pub record Folder : Type 0 where
  pub input : FolderInput
  pub open input use *
  pub version_vector : VersionVector

pub record TagGroup : Type 0 where
  pub id : String
  pub name : String
  pub icon : String
  pub base_color : String
  pub description : Option String

pub record DeviceProfile : Type 0 where
  pub id : String
  pub name : String
  pub created_at : ℕ
  pub version_vector : VersionVector

-- The provider, of which there is one, is left out; the configuration is its JSON text.
pub record SyncTarget : Type 0 where
  pub target_config : String

pub record SyncRemovalPending : Type 0 where
  pub expected_remote_snapshot_identity : Option VaultSnapshotIdentity
  pub rollback_snapshot : VaultSnapshot

pub record ProviderCredentialRevocationPending : Type 0 where
  pub revoked_device_ids : List String
  pub vault_key_generation : ℕ

pub record Vault : Type 0 where
  pub version_vector : VersionVector
  pub entries : List PasswordEntry
  pub deleted_entries : List Deleted
  pub device_profiles : List DeviceProfile
  pub deleted_device_profiles : List Deleted
  pub sync_target : Option SyncTarget
  pub sync_removal_pending : Option SyncRemovalPending
  pub provider_credential_revocation_pending : Option ProviderCredentialRevocationPending
  pub tags : List Tag
  pub deleted_tags : List Deleted
  pub tag_groups : List TagGroup
  pub folders : List Folder
  pub deleted_folders : List Deleted

-- What the four kinds of items of a vault have in common.
pub record Item (A : Type 0) : Type 0 where
  pub id : A → String
  pub version : A → VersionVector

abbrev pub entry_item : Item PasswordEntry
entry_item = record { id = λ a. a.id; version = λ a. a.version_vector }

abbrev pub tag_item : Item Tag
tag_item = record { id = λ a. a.id; version = λ a. a.version_vector }

abbrev pub folder_item : Item Folder
folder_item = record { id = λ a. a.id; version = λ a. a.version_vector }

abbrev pub device_profile_item : Item DeviceProfile
device_profile_item = record { id = λ a. a.id; version = λ a. a.version_vector }

abbrev pub deleted_item : Item Deleted
deleted_item = record { id = λ a. a.id; version = λ a. a.version_vector }

module _ {A : Type 0} (item : Item A) where
  abbrev pub ids : List A → List String
  ids = map item.id

  -- `items.find((item) => item.id === id)`
  abbrev pub find_id : String → List A → Option A
  find_id i = find (λ a. item.id a == i)

  -- `items.some((item) => item.id === id)`
  abbrev pub some_id : String → List A → Bool
  some_id i = any (λ a. item.id a == i)

  -- `items.filter((item) => item.id !== id)`
  abbrev pub without_id : String → List A → List A
  without_id i = filter (λ a. not (item.id a == i))

  -- `const index = items.findIndex((item) => item.id === id); items[index] = b`
  unfoldable pub replace_id : String → A → List A → List A
  replace_id i b [] = []
  replace_id i b (a ∷ l) = if item.id a == i then b ∷ l else a ∷ replace_id i b l
