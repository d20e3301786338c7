-- ===== src/Vault/History.antt =====
-- The life of a vault: the mutations of packages/core/src/domain/vault, one after another, by the
-- devices that share it. What trims, normalizes and lowers a name is a parameter.
pub mod Steps
pub mod Invariant
use engr_serverless_pm.Base.{ℕ, String, ◌≡◌, Option, Result, ok}
use engr_serverless_pm.Vault.{Vault, PasswordEntryInput, TagInput, FolderInput}
use engr_serverless_pm.Vault.Entries.{
  add_password_entry_to_vault, update_password_entry_in_vault, remove_password_entry_from_vault,
}
use engr_serverless_pm.Vault.Tags.{
  TagChange, add_tag_to_vault, update_tag_in_vault, remove_tag_from_vault,
}
use engr_serverless_pm.Vault.Folders.{
  FolderChange, add_folder_to_vault, update_folder_in_vault, move_folder_in_vault,
  remove_folder_from_vault,
}
use engr_serverless_pm.Vault.Devices.{
  add_device_profile_to_vault, revoke_device_profile_from_vault,
  remove_other_device_profiles_from_vault,
}

-- A call of a mutation, with its arguments but the vault. The device that makes it is the `String`
-- before the time, if there is one, and the last `String` otherwise.
pub data Mutation : Type 0 where
  add_entry update_entry : String → PasswordEntryInput → String → Mutation
  remove_entry remove_tag remove_folder revoke_device : String → String → ℕ → Mutation
  add_tag : TagInput → String → Mutation
  update_tag : String → TagChange → String → Mutation
  add_folder : FolderInput → String → Mutation
  update_folder : String → FolderChange → String → Mutation
  move_folder : String → Option String → String → Mutation
  add_device : String → String → ℕ → Mutation
  remove_other_devices : String → ℕ → Mutation

module _ (normalized_name : String → String) where
  unfoldable pub perform : Vault → Mutation → Result Vault
  perform vault (Mutation.add_entry i input d) = add_password_entry_to_vault vault i input d
  perform vault (Mutation.update_entry i input d) =
      ok (update_password_entry_in_vault vault i input d)
  perform vault (Mutation.remove_entry i d t) = ok (remove_password_entry_from_vault vault i d t)
  perform vault (Mutation.add_tag input d) = add_tag_to_vault normalized_name vault input d
  perform vault (Mutation.update_tag i input d) =
      update_tag_in_vault normalized_name vault i input d
  perform vault (Mutation.remove_tag i d t) = remove_tag_from_vault vault i d t
  perform vault (Mutation.add_folder input d) = add_folder_to_vault normalized_name vault input d
  perform vault (Mutation.update_folder i input d) =
      update_folder_in_vault normalized_name vault i input d
  perform vault (Mutation.move_folder i parent d) =
      move_folder_in_vault normalized_name vault i parent d
  perform vault (Mutation.remove_folder i d t) = remove_folder_from_vault vault i d t
  perform vault (Mutation.add_device i name t) = add_device_profile_to_vault vault i name t
  perform vault (Mutation.revoke_device i d t) = ok (revoke_device_profile_from_vault vault d i t)
  perform vault (Mutation.remove_other_devices d t) =
      ok (remove_other_device_profiles_from_vault vault d t)

  -- The vaults that mutations make of a first one.
  pub data Reachable (first : Vault) : Vault → Type 0 where
    here : Reachable first first
    step :
        {vault after : Vault}
        → Reachable first vault
        → (m : Mutation) → perform vault m ≡ ok after
        → Reachable first after
