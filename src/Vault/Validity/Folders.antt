-- ===== src/Vault/Validity/Folders.antt =====
-- The folder mutations of packages/core/src/domain/vault keep a vault valid.
use engr_serverless_pm.Base.{
  ℕ, String, ◌≡◌, refl, ◌∙◌, inl, inr, ◌||◌, Option, none, some, OnOk, OnOk->>=, Bool-cases,
  Option-cases, ltb, length, filter, ◌==◌,
}
use engr_serverless_pm.Versioning.Bounds.{AtMost-increment, increment-AtMost}
use engr_serverless_pm.Vault.{Vault, Folder, FolderInput, folder_item, find_id, some_id, replace_id}
use engr_serverless_pm.Versioning.{increment_version_vector}
use engr_serverless_pm.Vault.Collections.{id_of_find}
use engr_serverless_pm.Vault.Sound.{IsSound-add, IsSound-replace, IsSound-remove}
use engr_serverless_pm.Vault.Folders.{
  FolderChange, same_parent, require_folder_parent, require_folder_move_does_not_create_cycle,
  require_unique_sibling_folder_name, add_folder_to_vault, update_folder_in_vault,
  move_folder_in_vault, remove_folder_from_vault,
}
use engr_serverless_pm.Vault.Validity.{IsValid, IsValid-grow, find_covered, added_version-AtMost}

-- A folder takes the place of the active one with its identifier, its vector counted once.
replace_folder-IsValid :
    (vault : Vault) (i d : String) (current : Folder) (input : FolderInput)
    → IsValid vault
    → find_id folder_item i vault.folders ≡ some current
    → input.id ≡ current.id
    → IsValid (record vault {
      version_vector = increment_version_vector vault.version_vector d;
      folders =
          replace_id folder_item i
            (record {
              input = input;
              version_vector = increment_version_vector current.version_vector d;
            })
            vault.folders;
    })
replace_folder-IsValid vault i d current input s e same =
    let g = IsValid-grow vault d s in
    record {
      entries = g.entries;
      tags = g.tags;
      folders =
          IsSound-replace folder_item _ _ (AtMost-increment vault.version_vector d) vault.folders
            vault.deleted_folders i _ s.folders
            (same ∙ id_of_find folder_item i vault.folders current e)
            (increment-AtMost current.version_vector vault.version_vector d
              (find_covered folder_item _ vault.folders i current s.folders.active_covered e));
      device_profiles = g.device_profiles;
    }

module _ (normalized_name : String → String) where
  -- Adding a folder to a valid vault gives a valid vault, unless it is refused.
  pub add_folder-IsValid :
      (vault : Vault) (input : FolderInput) (d : String)
      → IsValid vault
      → OnOk IsValid (add_folder_to_vault normalized_name vault input d)
  unfolding add_folder_to_vault
  add_folder-IsValid vault input d s =
      elim (Bool-cases (some_id folder_item input.id vault.folders)) [
        | inl e ↦ rw e tt
        | inr e ↦ rw e (
            OnOk->>= IsValid (require_folder_parent vault input.parent_id) _ λ _ _.
              OnOk->>= IsValid
                (require_unique_sibling_folder_name normalized_name vault input.name input.parent_id
                  none)
                _
                (λ _ _.
                  let g = IsValid-grow vault d s in
                  record {
                    entries = g.entries;
                    tags = g.tags;
                    folders =
                        IsSound-add folder_item _ _ (AtMost-increment vault.version_vector d)
                          vault.folders vault.deleted_folders _ s.folders e
                          (added_version-AtMost vault.version_vector vault.deleted_folders input.id
                            d _ refl s.folders.deleted_covered);
                    device_profiles = g.device_profiles;
                  }))
      ]

  -- Updating a folder keeps a vault valid.
  pub update_folder-IsValid :
      (vault : Vault) (i : String) (input : FolderChange) (d : String)
      → IsValid vault
      → OnOk IsValid (update_folder_in_vault normalized_name vault i input d)
  unfolding update_folder_in_vault
  update_folder-IsValid vault i input d s =
      elim (Option-cases (find_id folder_item i vault.folders)) [
        | inl e ↦ rw (e, update_folder_in_vault) s
        | inr (current, e) ↦
            rw (e, update_folder_in_vault)
              (OnOk->>= IsValid
                (require_unique_sibling_folder_name normalized_name vault input.name
                  current.parent_id (some i))
                _ (λ _ _. replace_folder-IsValid vault i d current _ s e refl))
      ]

  -- Moving a folder keeps a vault valid.
  pub move_folder-IsValid :
      (vault : Vault) (i : String) (parent_id : Option String) (d : String)
      → IsValid vault
      → OnOk IsValid (move_folder_in_vault normalized_name vault i parent_id d)
  unfolding move_folder_in_vault
  move_folder-IsValid vault i parent_id d s =
      elim (Option-cases (find_id folder_item i vault.folders)) [
        | inl e ↦ rw (e, move_folder_in_vault) s
        | inr (current, e) ↦
            rw (e, move_folder_in_vault)
              (OnOk->>= IsValid (require_folder_parent vault parent_id) _ λ _ _.
                OnOk->>= IsValid (require_folder_move_does_not_create_cycle vault i parent_id) _
                  λ _ _.
                    OnOk->>= IsValid
                      (require_unique_sibling_folder_name normalized_name vault current.name
                        parent_id (some i))
                      _ (λ _ _. replace_folder-IsValid vault i d current _ s e refl))
      ]

-- Removing a folder keeps a vault valid.
pub remove_folder-IsValid :
    (vault : Vault) (i d : String) (deleted_at : ℕ)
    → IsValid vault
    → OnOk IsValid (remove_folder_from_vault vault i d deleted_at)
unfolding remove_folder_from_vault
remove_folder-IsValid vault i d deleted_at s =
    elim (Option-cases (find_id folder_item i vault.folders)) [
      | inl e ↦ rw (e, remove_folder_from_vault) s
      | inr (folder, e) ↦
          elim (Bool-cases (
            ltb 0 (length (filter (λ entry. entry.folder_id == i) vault.entries))
            || ltb 0 (length (filter (λ f. same_parent f.parent_id (some i)) vault.folders)))) [
              | inl used ↦ rw (e, remove_folder_from_vault, used) tt
              | inr free ↦
                  let g = IsValid-grow vault d s in
                  rw (e, remove_folder_from_vault, free)
                    (record {
                      entries = g.entries;
                      tags = g.tags;
                      folders =
                          IsSound-remove folder_item _ _ (AtMost-increment vault.version_vector d)
                            vault.folders vault.deleted_folders _ s.folders
                            (increment-AtMost folder.version_vector vault.version_vector d (
                              find_covered folder_item _ vault.folders i folder
                                s.folders.active_covered e));
                      device_profiles = g.device_profiles;
                    })
            ]
    ]
