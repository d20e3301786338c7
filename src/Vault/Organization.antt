-- ===== src/Vault/Organization.antt =====
-- packages/core/src/domain/vault/vault-organization-reference.policy.ts. What trims, normalizes and
-- lowers a name is a parameter.
pub mod Sets
pub mod Loops
pub mod Valid
pub mod Exact
use engr_serverless_pm.Base.{
  ℕ, zero, suc, ◌+◌, String, Bool, true, false, not, ◌&&◌, ◌||◌, Option, none, some, List, [], ◌∷◌,
  ◌++◌, map, Result, ok, err, ◌>>=◌, ◌>>◌, OrganizationFault, invalid_identity, tag_group_repeated,
  deleted_tag_repeated, tag_repeated, folder_repeated, missing_tag_group, missing_parent,
  missing_folder, sibling_name_repeated, parent_cycle, invalid_vault_organization_reference,
  invalid_vault_tag_reference, vault_tag_not_found, vault_folder_not_found,
  vault_tag_group_not_found, if◌then◌else◌, ◌==◌, leb, ltb, nat_eq, any, all, find, length,
  contains, set_add, set_of,
}
use engr_serverless_pm.Vault.{
  Vault, Tag, TagGroup, Folder, PasswordEntry, Deleted, tag_item, folder_item, deleted_item, ids,
  some_id,
}
use engr_serverless_pm.Vault.Identity.{is_tag_id, is_folder_id}
use engr_serverless_pm.Vault.Folders.{
  uncategorized_folder_id, same_parent, folder_by_id, parent_of, cycle_fuel,
}

abbrev invalid : OrganizationFault → Result (Unit {0})
invalid fault = err (invalid_vault_organization_reference fault)

abbrev pub refuse_if : Bool → OrganizationFault → Result (Unit {0})
refuse_if test fault = if test then invalid fault else ok tt

abbrev pub has_invalid_identity : Vault → Bool
has_invalid_identity vault =
    any (λ i. not (is_tag_id i)) (ids tag_item vault.tags ++ ids deleted_item vault.deleted_tags)
    || any (λ i. not (is_folder_id i))
        (ids folder_item vault.folders ++ ids deleted_item vault.deleted_folders)

-- `new Set(ids).size !== ids.length`
abbrev pub repeats : List String → Bool
repeats is = not (nat_eq (length (set_of is)) (length is))

-- the loop of `requireAcyclicFolder`: whether it comes back to a folder. It runs out of fuel with
-- `none`.
unfoldable pub comes_back : ℕ → List Folder → List String → Option String → Option Bool
unfolding folder_by_id
comes_back fuel folders visited none = some false
comes_back zero folders visited (some current) = none
comes_back (suc fuel) folders visited (some current) =
    let rest =
      comes_back fuel folders (set_add visited current)
        (parent_of (folder_by_id folders current)) in
    if contains visited current then some true else rest

abbrev pub require_not_back : Option Bool → Result (Unit {0})
require_not_back (some false) = ok tt
require_not_back _ = invalid parent_cycle

unfoldable pub require_acyclic_folder : List Folder → String → Result (Unit {0})
unfolding comes_back
require_acyclic_folder folders i =
    require_not_back (comes_back (cycle_fuel folders) folders [] (some i))

abbrev pub lacks_parent : List String → Option String → Bool
lacks_parent folder_ids none = false
lacks_parent folder_ids (some p) = not (contains folder_ids p)

-- the loop over the entries' folders
unfoldable pub require_entry_folders : List String → List PasswordEntry → Result (Unit {0})
require_entry_folders folder_ids [] = ok tt
require_entry_folders folder_ids (e ∷ es) =
    let rest = require_entry_folders folder_ids es in
    if not (e.folder_id == uncategorized_folder_id) && not (contains folder_ids e.folder_id)
    then invalid (missing_folder e.id)
    else rest

-- the loop over the tags' groups
unfoldable pub require_tag_groups : List String → List Tag → Result (Unit {0})
require_tag_groups group_ids [] = ok tt
require_tag_groups group_ids (t ∷ ts) =
    let rest = require_tag_groups group_ids ts in
    if not (contains group_ids t.group_id) then invalid (missing_tag_group t.id) else rest

module _ (normalized_name : String → String) where
  -- the loop over the tag groups, with its two sets; it gives the set of identifiers
  unfoldable pub require_tag_groups_unique :
      List String → List String → List TagGroup → Result (List String)
  require_tag_groups_unique group_ids names [] = ok group_ids
  require_tag_groups_unique group_ids names (g ∷ gs) =
      let rest =
        require_tag_groups_unique (set_add group_ids g.id) (set_add names (normalized_name g.name))
          gs in
      if contains group_ids g.id || contains names (normalized_name g.name)
      then err (invalid_vault_organization_reference tag_group_repeated)
      else rest

  -- the loop over the tags, with its sets
  unfoldable pub require_tags_unique :
      List String → List String → List String → List Tag → Result (Unit {0})
  require_tags_unique deleted_ids tag_ids names [] = ok tt
  require_tags_unique deleted_ids tag_ids names (t ∷ ts) =
      let rest =
        require_tags_unique deleted_ids (set_add tag_ids t.id)
          (set_add names (normalized_name t.name)) ts in
      if contains tag_ids t.id
        || contains deleted_ids t.id
        || contains names (normalized_name t.name)
      then invalid tag_repeated
      else rest

  -- the loop over the folders; `names` holds the pairs of a parent and a name seen under it
  unfoldable pub require_folder_tree :
      List Folder → List String → List (Option String × String) → List Folder → Result (Unit {0})
  unfolding require_acyclic_folder
  require_folder_tree folders folder_ids names [] = ok tt
  require_folder_tree folders folder_ids names (f ∷ fs) =
      let name = normalized_name f.name in
      let rest = (do
        require_acyclic_folder folders f.id
        require_folder_tree folders folder_ids ((f.parent_id, name) ∷ names) fs) in
      if lacks_parent folder_ids f.parent_id
      then invalid (missing_parent f.id)
      else if any (λ p. same_parent p.0 f.parent_id && p.1 == name) names
      then invalid sibling_name_repeated
      else rest

  unfoldable pub require_valid_vault_organization : Vault → Result (Unit {0})
  unfolding is_tag_id is_folder_id set_of require_tag_groups_unique require_tag_groups
      require_tags_unique require_folder_tree require_entry_folders
  require_valid_vault_organization vault = do
    refuse_if (has_invalid_identity vault) invalid_identity
    group_ids ← require_tag_groups_unique [] [] vault.tag_groups
    require_tag_groups group_ids vault.tags
    refuse_if (repeats (ids deleted_item vault.deleted_tags)) deleted_tag_repeated
    require_tags_unique (set_of (ids deleted_item vault.deleted_tags)) [] [] vault.tags
    refuse_if
        (repeats (ids folder_item vault.folders)
          || repeats (ids deleted_item vault.deleted_folders)
          || any (contains (set_of (ids deleted_item vault.deleted_folders)))
              (set_of (ids folder_item vault.folders)))
        folder_repeated
    require_folder_tree vault.folders (set_of (ids folder_item vault.folders)) [] vault.folders
    require_entry_folders (set_of (ids folder_item vault.folders)) vault.entries

unfoldable pub require_vault_folder_exists : Vault → String → Result (Unit {0})
require_vault_folder_exists vault folder_id =
    if not (folder_id == uncategorized_folder_id)
      && not (some_id folder_item folder_id vault.folders)
    then err (vault_folder_not_found folder_id)
    else ok tt

unfoldable pub require_vault_tag_group_exists : Vault → String → Result (Unit {0})
require_vault_tag_group_exists vault group_id =
    if not (any (λ g. g.id == group_id) vault.tag_groups)
    then err (vault_tag_group_not_found group_id)
    else ok tt
