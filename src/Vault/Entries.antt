-- ===== src/Vault/Entries.antt =====
-- packages/core/src/domain/vault/vault-entry.mutations.ts
use engr_serverless_pm.Base.{
  ℕ, String, Option, none, some, [], ◌∷◌, ◌++◌, Result, ok, err, duplicate_vault_entry,
  if◌then◌else◌,
}
use engr_serverless_pm.Versioning.{VersionVector, get, increment_version_vector}
use engr_serverless_pm.Vault.{
  Vault, PasswordEntry, PasswordEntryInput, Deleted, entry_item, deleted_item, find_id, some_id,
  without_id, replace_id,
}

-- The vector of an item that is added: its device's new count alone, or the next of its
-- tombstone's.
abbrev pub added_version : Option Deleted → VersionVector → String → VersionVector
added_version none v device_id = (device_id, get v device_id) ∷ []
added_version (some t) v device_id = increment_version_vector t.version_vector device_id

unfoldable pub add_password_entry_to_vault :
    Vault → String → PasswordEntryInput → String → Result Vault
add_password_entry_to_vault vault entry_id input device_id =
    let v = increment_version_vector vault.version_vector device_id in
    let entry : PasswordEntry = record {
      id = entry_id;
      input = input;
      version_vector =
          added_version (find_id deleted_item entry_id vault.deleted_entries) v device_id;
    } in
    if some_id entry_item entry_id vault.entries
    then err (duplicate_vault_entry entry_id)
    else ok (record vault {
      version_vector = v;
      entries = vault.entries ++ entry ∷ [];
      deleted_entries = without_id deleted_item entry_id vault.deleted_entries;
    })

unfoldable pub update_password_entry_in_vault : Vault → String → PasswordEntryInput → String → Vault
unfolding replace_id
update_password_entry_in_vault vault entry_id input device_id =
    elim (find_id entry_item entry_id vault.entries) [
      | none ↦ vault
      | some current ↦ record vault {
        version_vector = increment_version_vector vault.version_vector device_id;
        entries =
            replace_id entry_item entry_id
              (record {
                id = entry_id;
                input = input;
                version_vector = increment_version_vector current.version_vector device_id;
              })
              vault.entries;
      }
    ]

unfoldable pub remove_password_entry_from_vault : Vault → String → String → ℕ → Vault
remove_password_entry_from_vault vault entry_id device_id deleted_at =
    elim (find_id entry_item entry_id vault.entries) [
      | none ↦ vault
      | some entry ↦ record vault {
        version_vector = increment_version_vector vault.version_vector device_id;
        entries = without_id entry_item entry_id vault.entries;
        deleted_entries =
            without_id deleted_item entry_id vault.deleted_entries
            ++ (record {
              id = entry_id;
              version_vector = increment_version_vector entry.version_vector device_id;
              deleted_at = deleted_at;
            })
              ∷ [];
      }
    ]
