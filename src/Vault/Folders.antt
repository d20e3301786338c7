-- ===== src/Vault/Folders.antt =====
-- packages/core/src/domain/vault: vault-folder.mutations.ts and vault-folder.policy.ts. What trims,
-- normalizes and lowers a name is a parameter.
use engr_serverless_pm.Base.{
  ℕ, zero, suc, ◌+◌, String, Bool, true, false, not, ◌&&◌, ◌||◌, Option, none, some, List, [], ◌∷◌,
  ◌++◌, Result, ok, err, ◌>>◌, duplicate_vault_folder, duplicate_vault_folder_name,
  vault_folder_cycle, vault_folder_not_found, vault_folder_not_empty, if◌then◌else◌, ◌==◌, any,
  filter, length, contains, set_add, ltb,
}
use engr_serverless_pm.Versioning.{increment_version_vector}
use engr_serverless_pm.Vault.{
  Vault, Folder, FolderInput, folder_item, deleted_item, find_id, some_id, without_id, replace_id,
}
use engr_serverless_pm.Vault.Entries.{added_version}
use engr_serverless_pm.Vault.Tags.{is_ignored}

abbrev pub uncategorized_folder_id : String
uncategorized_folder_id = "uncategorized"

-- `a === b` on identifiers that may be null
abbrev pub same_parent : Option String → Option String → Bool
same_parent none none = true
same_parent (some a) (some b) = a == b
same_parent _ _ = false

unfoldable pub require_folder_parent : Vault → Option String → Result (Unit {0})
require_folder_parent vault none = ok tt
require_folder_parent vault (some parent_id) =
    if (parent_id == uncategorized_folder_id) || not (some_id folder_item parent_id vault.folders)
    then err (vault_folder_not_found parent_id)
    else ok tt

-- `byId.get(id)`, of a map that keeps the last folder of each identifier
unfoldable pub folder_by_id : List Folder → String → Option Folder
folder_by_id [] i = none
folder_by_id (f ∷ fs) i = elim (folder_by_id fs i) [
  | some g ↦ some g
  | none ↦ if f.id == i then some f else none
]

abbrev pub parent_of : Option Folder → Option String
parent_of none = none
parent_of (some f) = f.parent_id

-- The `while` loop of `requireFolderMoveDoesNotCreateCycle`: whether it finds a cycle. It runs out
-- of fuel with `none`.
unfoldable pub finds_cycle : ℕ → List Folder → String → List String → Option String → Option Bool
unfolding folder_by_id
finds_cycle fuel folders folder_id visited none = some false
finds_cycle zero folders folder_id visited (some current) = none
finds_cycle (suc fuel) folders folder_id visited (some current) =
    let rest =
      finds_cycle fuel folders folder_id (set_add visited current)
        (parent_of (folder_by_id folders current)) in
    if (current == folder_id) || contains visited current then some true else rest

abbrev pub cycle_fuel : List Folder → ℕ
cycle_fuel folders = length folders + 2

abbrev pub require_no_cycle : Option Bool → Result (Unit {0})
require_no_cycle (some false) = ok tt
require_no_cycle _ = err vault_folder_cycle

unfoldable pub require_folder_move_does_not_create_cycle :
    Vault → String → Option String → Result (Unit {0})
unfolding finds_cycle
require_folder_move_does_not_create_cycle vault folder_id none = ok tt
require_folder_move_does_not_create_cycle vault folder_id (some parent_id) =
    if folder_id == parent_id
    then err vault_folder_cycle
    else require_no_cycle
        (finds_cycle (cycle_fuel vault.folders) vault.folders folder_id [] (some parent_id))

-- `Pick<FolderInput, "name" | "icon" | "description">`. A description that the input does not have, the
-- outer `none`, is not changed.
pub record FolderChange : Type 0 where
  pub name : String
  pub icon : String
  pub description : Option (Option String)

-- What a key of the spread input does to the current value.
abbrev pub spread_over : Option String → Option (Option String) → Option String
spread_over current none = current
spread_over current (some changed) = changed

module _ (normalized_name : String → String) where
  unfoldable pub require_unique_sibling_folder_name :
      Vault → String → Option String → Option String → Result (Unit {0})
  require_unique_sibling_folder_name vault name parent_id ignored_folder_id =
      if any
        (λ folder.
          not (is_ignored ignored_folder_id folder.id)
          && same_parent folder.parent_id parent_id
          && normalized_name folder.name == normalized_name name)
        vault.folders
      then err duplicate_vault_folder_name
      else ok tt

  unfoldable pub add_folder_to_vault : Vault → FolderInput → String → Result Vault
  unfolding require_folder_parent require_unique_sibling_folder_name
  add_folder_to_vault vault input device_id =
      let v = increment_version_vector vault.version_vector device_id in
      let folder : Folder = record {
        input = input;
        version_vector =
            added_version (find_id deleted_item input.id vault.deleted_folders) v device_id;
      } in
      if some_id folder_item input.id vault.folders
      then err (duplicate_vault_folder input.id)
      else (do
        require_folder_parent vault input.parent_id
        require_unique_sibling_folder_name vault input.name input.parent_id none
        ok (record vault {
          version_vector = v;
          folders = vault.folders ++ folder ∷ [];
          deleted_folders = without_id deleted_item input.id vault.deleted_folders;
        }))

  unfoldable pub update_folder_in_vault : Vault → String → FolderChange → String → Result Vault
  unfolding require_unique_sibling_folder_name replace_id
  update_folder_in_vault vault folder_id input device_id =
      elim (find_id folder_item folder_id vault.folders) [
        | none ↦ ok vault
        | some current ↦ do
          require_unique_sibling_folder_name vault input.name current.parent_id (some folder_id)
          ok (record vault {
            version_vector = increment_version_vector vault.version_vector device_id;
            folders =
                replace_id folder_item folder_id
                  (record {
                    input = record (current.input) {
                      name = input.name;
                      icon = input.icon;
                      description = spread_over current.description input.description;
                    };
                    version_vector = increment_version_vector current.version_vector device_id;
                  })
                  vault.folders;
          })
      ]

  unfoldable pub move_folder_in_vault : Vault → String → Option String → String → Result Vault
  unfolding require_folder_parent require_folder_move_does_not_create_cycle
      require_unique_sibling_folder_name replace_id
  move_folder_in_vault vault folder_id parent_id device_id =
      elim (find_id folder_item folder_id vault.folders) [
        | none ↦ ok vault
        | some current ↦ do
          require_folder_parent vault parent_id
          require_folder_move_does_not_create_cycle vault folder_id parent_id
          require_unique_sibling_folder_name vault current.name parent_id (some folder_id)
          ok (record vault {
            version_vector = increment_version_vector vault.version_vector device_id;
            folders =
                replace_id folder_item folder_id
                  (record {
                    input = record (current.input) { parent_id = parent_id };
                    version_vector = increment_version_vector current.version_vector device_id;
                  })
                  vault.folders;
          })
      ]

unfoldable pub remove_folder_from_vault : Vault → String → String → ℕ → Result Vault
remove_folder_from_vault vault folder_id device_id deleted_at =
    elim (find_id folder_item folder_id vault.folders) [
      | none ↦ ok vault
      | some folder ↦
          let entry_count = length (filter (λ entry. entry.folder_id == folder_id) vault.entries) in
          let child_count =
            length (filter (λ item. same_parent item.parent_id (some folder_id)) vault.folders) in
          if ltb 0 entry_count || ltb 0 child_count
          then err (vault_folder_not_empty folder_id entry_count child_count)
          else ok (record vault {
            version_vector = increment_version_vector vault.version_vector device_id;
            folders = without_id folder_item folder_id vault.folders;
            deleted_folders =
                without_id deleted_item folder_id vault.deleted_folders
                ++ (record {
                  id = folder_id;
                  version_vector = increment_version_vector folder.version_vector device_id;
                  deleted_at = deleted_at;
                })
                  ∷ [];
          })
    ]
