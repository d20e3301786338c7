-- ===== src/Vault/Validity.antt =====
-- A valid vault: each of its four collections is sound under the vault's version vector.
pub mod Entries
pub mod Tags
pub mod Folders
pub mod Devices
use engr_serverless_pm.Base.{String, ◌≡◌, refl, Option, none, some, List, arith, ◌==◌, eq_iff}
use engr_serverless_pm.Versioning.{VersionVector, get, increment_version_vector}
use engr_serverless_pm.Versioning.Order.{AtMost}
use engr_serverless_pm.Versioning.Vectors.{get-increment}
use engr_serverless_pm.Versioning.Bounds.{AtMost-increment, increment-AtMost}
use engr_serverless_pm.Vault.{
  Vault, Item, Deleted, entry_item, tag_item, folder_item, device_profile_item, deleted_item,
  find_id,
}
use engr_serverless_pm.Vault.Collections.{All, All-find}
use engr_serverless_pm.Vault.Sound.{IsSound, IsSound-grow}
use engr_serverless_pm.Vault.Entries.{added_version}

pub record IsValid (vault : Vault) : Type 0 where
  pub entries : IsSound entry_item vault.version_vector vault.entries vault.deleted_entries
  pub tags : IsSound tag_item vault.version_vector vault.tags vault.deleted_tags
  pub folders : IsSound folder_item vault.version_vector vault.folders vault.deleted_folders
  pub device_profiles :
      IsSound device_profile_item vault.version_vector vault.device_profiles
        vault.deleted_device_profiles

pub find_covered :
    {A : Type 0} (item : Item A) (v : VersionVector) (xs : List A) (i : String) (a : A)
    → All (λ b. AtMost (item.version b) v) xs
    → find_id item i xs ≡ some a
    → AtMost (item.version a) v
find_covered item v xs i a h e = All-find (λ b. AtMost (item.version b) v) _ xs a h e

-- The vector that an added item gets is covered by the vault's new one.
pub added_version-AtMost :
    (v : VersionVector) (deleted : List Deleted) (i d : String) (o : Option Deleted)
    → find_id deleted_item i deleted ≡ o
    → All (λ t. AtMost t.version_vector v) deleted
    → AtMost (added_version o (increment_version_vector v d) d) (increment_version_vector v d)
unfolding get
added_version-AtMost v deleted i d none e h x = ground (arith, eq_iff d x)
added_version-AtMost v deleted i d (some t) e h x =
    increment-AtMost t.version_vector v d (find_covered deleted_item v deleted i t h e) x

-- A valid vault stays so when only its vector grows.
pub IsValid-grow :
    (vault : Vault) (d : String)
    → IsValid vault
    → IsValid (record vault { version_vector = increment_version_vector vault.version_vector d })
IsValid-grow vault d s =
    let grows = AtMost-increment vault.version_vector d in
    record {
      entries = IsSound-grow entry_item _ _ grows vault.entries vault.deleted_entries s.entries;
      tags = IsSound-grow tag_item _ _ grows vault.tags vault.deleted_tags s.tags;
      folders = IsSound-grow folder_item _ _ grows vault.folders vault.deleted_folders s.folders;
      device_profiles =
          IsSound-grow device_profile_item _ _ grows vault.device_profiles
            vault.deleted_device_profiles s.device_profiles;
    }
