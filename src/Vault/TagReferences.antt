-- ===== src/Vault/TagReferences.antt =====
-- packages/core/src/domain/vault/vault-tag-reference.policy.ts
pub mod Exact
use engr_serverless_pm.Base.{
  String, not, Option, none, some, List, [], ◌∷◌, Result, ok, err, invalid_vault_tag_reference,
  vault_tag_not_found, find, contains, set_of,
}
use engr_serverless_pm.Vault.{Vault, PasswordEntry, tag_item, ids}

abbrev pub missing_tag_id : List String → List String → Option String
missing_tag_id active_tag_ids = find (λ i. not (contains active_tag_ids i))

unfoldable pub require_vault_tags_exist : Vault → List String → Result (Unit {0})
unfolding set_of
require_vault_tags_exist vault tag_ids =
    elim (missing_tag_id (set_of (ids tag_item vault.tags)) tag_ids) [
      | none ↦ ok tt
      | some i ↦ err (vault_tag_not_found i)
    ]

-- the loop over the entries' tags
unfoldable pub require_entry_tags : List String → List PasswordEntry → Result (Unit {0})
require_entry_tags active_tag_ids [] = ok tt
require_entry_tags active_tag_ids (e ∷ es) =
    let rest = require_entry_tags active_tag_ids es in
    elim (missing_tag_id active_tag_ids e.tags) [
      | none ↦ rest
      | some i ↦ err (invalid_vault_tag_reference e.id i)
    ]

unfoldable pub require_valid_vault_tag_references : Vault → Result (Unit {0})
unfolding require_entry_tags set_of
require_valid_vault_tag_references vault =
    require_entry_tags (set_of (ids tag_item vault.tags)) vault.entries
