-- ===== src/Vault/Tree/Mutations.antt =====
-- The mutations of packages/core/src/domain/vault/vault-folder.mutations.ts keep the folders of a
-- valid vault a tree.
use engr_serverless_pm.Base.{
  String, ◌≡◌, ap, ◌∙◌, inl, inr, true, false, ◌||◌, Option, none, some, List, [], ◌∷◌, OnOk,
  OnOk->>=, OnOk->>, ℕ, arith, ◌==◌, eq_iff, Bool-cases, Option-cases, any_of_find, contains,
  Distinct, filter, length, ltb,
}
use engr_serverless_pm.Vault.{Vault, Folder, FolderInput, folder_item, ids, find_id, some_id}
use engr_serverless_pm.Vault.Collections.{contains-ids, id_of_find}
use engr_serverless_pm.Vault.Validity.{IsValid}
use engr_serverless_pm.Vault.Folders.{
  FolderChange, same_parent, folder_by_id, parent_of, require_folder_parent,
  require_folder_move_does_not_create_cycle, require_unique_sibling_folder_name,
  add_folder_to_vault, update_folder_in_vault, move_folder_in_vault, remove_folder_from_vault,
}
use engr_serverless_pm.Vault.Tree.{folder_absent, up, Avoids}
use engr_serverless_pm.Vault.Tree.Moves.{move_iff}
use engr_serverless_pm.Vault.Tree.Forest.{Avoids-parent}
use engr_serverless_pm.Vault.Tree.Kept.{
  IsThere, IsTree, IsThere-of_require, up-IsThere, append-IsTree, replace-IsTree, without-IsTree,
}

there_of_find :
    (folders : List Folder) (i : String) (f : Folder)
    → find_id folder_item i folders ≡ some f
    → contains (ids folder_item folders) i ≡ true
there_of_find folders i f e =
    contains-ids folder_item folders i ∙ any_of_find (λ g. g.id == i) folders f e

by_id_of_find :
    (folders : List Folder) (i : String) (f : Folder)
    → Distinct (ids folder_item folders)
    → find_id folder_item i folders ≡ some f
    → folder_by_id folders i ≡ some f
unfolding folder_by_id
by_id_of_find [] i f d e = absurd (ground arith)
by_id_of_find (g ∷ folders) i f (new, d) e = elim (Bool-cases (g.id == i)) [
  | inl here ↦ ground (arith, folder_absent folders i (ground (arith, eq_iff g.id i, new)))
  | inr there ↦ ground (arith, by_id_of_find folders i f d (ground arith))
]

module _ (normalized_name : String → String) where
  -- Adding a folder to a valid vault keeps its folders a tree.
  pub add_folder-IsTree :
      (vault : Vault) (input : FolderInput) (d : String)
      → IsTree vault.folders
      → OnOk (λ after. IsTree after.folders) (add_folder_to_vault normalized_name vault input d)
  unfolding add_folder_to_vault
  add_folder-IsTree vault input d tree =
      elim (Bool-cases (some_id folder_item input.id vault.folders)) [
        | inl e ↦ rw e tt
        | inr e ↦ rw e (
            OnOk->>= (λ after. IsTree after.folders) (require_folder_parent vault input.parent_id) _
              λ u there.
                OnOk->>= (λ after. IsTree after.folders)
                  (require_unique_sibling_folder_name normalized_name vault input.name
                    input.parent_id none)
                  _
                  (λ _ _.
                    append-IsTree vault.folders _ tree
                      (contains-ids folder_item vault.folders input.id ∙ e)
                      (IsThere-of_require vault input.parent_id u there)))
      ]

  -- Updating a folder of a valid vault keeps its folders a tree.
  pub update_folder-IsTree :
      (vault : Vault) (i : String) (input : FolderChange) (d : String)
      → IsValid vault
      → IsTree vault.folders
      → OnOk
          (λ after. IsTree after.folders)
          (update_folder_in_vault normalized_name vault i input d)
  unfolding update_folder_in_vault
  update_folder-IsTree vault i input d s tree =
      elim (Option-cases (find_id folder_item i vault.folders)) [
        | inl e ↦ rw (e, update_folder_in_vault) tree
        | inr (current, e) ↦
            let parent : up vault.folders (some i) ≡ current.parent_id =
              ap parent_of
                (by_id_of_find vault.folders i current s.folders.separate.active_once e) in
            let avoids : Avoids vault.folders i current.parent_id =
              rw (← parent) (Avoids-parent vault.folders i tree.forest) in
            let there : IsThere vault.folders current.parent_id =
              rw (← parent) (up-IsThere vault.folders (some i) tree.parents) in
            rw (e, update_folder_in_vault)
              (OnOk->>= (λ after. IsTree after.folders)
                (require_unique_sibling_folder_name normalized_name vault input.name
                  current.parent_id (some i))
                _
                (λ _ _.
                  replace-IsTree vault.folders i _ tree s.folders.separate.active_once
                    (there_of_find vault.folders i current e)
                    (id_of_find folder_item i vault.folders current e) there avoids))
      ]

  -- Moving a folder of a valid vault keeps its folders a tree.
  pub move_folder-IsTree :
      (vault : Vault) (i : String) (parent_id : Option String) (d : String)
      → IsValid vault
      → IsTree vault.folders
      → OnOk
          (λ after. IsTree after.folders)
          (move_folder_in_vault normalized_name vault i parent_id d)
  unfolding move_folder_in_vault
  move_folder-IsTree vault i parent_id d s tree =
      elim (Option-cases (find_id folder_item i vault.folders)) [
        | inl e ↦ rw (e, move_folder_in_vault) tree
        | inr (current, e) ↦
            rw (e, move_folder_in_vault)
              (OnOk->>= (λ after. IsTree after.folders) (require_folder_parent vault parent_id) _
                λ u there.
                  OnOk->> (λ after. IsTree after.folders)
                    (require_folder_move_does_not_create_cycle vault i parent_id) _
                    λ free.
                      OnOk->>= (λ after. IsTree after.folders)
                        (require_unique_sibling_folder_name normalized_name vault current.name
                          parent_id (some i))
                        _
                        (λ _ _.
                          replace-IsTree vault.folders i _ tree s.folders.separate.active_once
                            (there_of_find vault.folders i current e)
                            (id_of_find folder_item i vault.folders current e)
                            (IsThere-of_require vault parent_id u there)
                            ((move_iff vault i parent_id).0 free).1))
      ]

-- Removing a folder keeps the folders a tree.
pub remove_folder-IsTree :
    (vault : Vault) (i d : String) (deleted_at : ℕ)
    → IsTree vault.folders
    → OnOk (λ after. IsTree after.folders) (remove_folder_from_vault vault i d deleted_at)
unfolding remove_folder_from_vault
remove_folder-IsTree vault i d deleted_at tree =
    elim (Option-cases (find_id folder_item i vault.folders)) [
      | inl e ↦ rw (e, remove_folder_from_vault) tree
      | inr (folder, e) ↦
          let entry_count = length (filter (λ entry. entry.folder_id == i) vault.entries) in
          let child_count = length (filter (λ f. same_parent f.parent_id (some i)) vault.folders) in
          elim (Bool-cases (ltb 0 entry_count || ltb 0 child_count)) [
            | inl used ↦ rw (e, remove_folder_from_vault, used) tt
            | inr free ↦
                let childless : ltb 0 child_count ≡ false = ground arith in
                rw (e, remove_folder_from_vault, free)
                  (without-IsTree vault.folders i tree childless)
          ]
    ]
