-- ===== src/Vault/Tags.antt =====
-- packages/core/src/domain/vault: vault-tag.mutations.ts and vault-tag-name.policy.ts. What trims,
-- normalizes and lowers a name is a parameter.
use engr_serverless_pm.Base.{
  ℕ, String, Bool, not, ◌&&◌, Option, none, some, [], ◌∷◌, ◌++◌, Result, ok, err, ◌>>◌,
  duplicate_vault_tag, duplicate_vault_tag_name, vault_tag_in_use, if◌then◌else◌, ◌==◌, any, filter,
  length, contains, ltb,
}
use engr_serverless_pm.Versioning.{increment_version_vector}
use engr_serverless_pm.Vault.{
  Vault, Tag, TagInput, tag_item, deleted_item, find_id, some_id, without_id, replace_id,
}
use engr_serverless_pm.Vault.Entries.{added_version}

-- `Omit<TagInput, "id" | "createdAt">`
pub record TagChange : Type 0 where
  pub name : String
  pub group_id : String
  pub color : String
  pub shade : ℕ

-- `id !== undefined`, compared with an identifier
abbrev pub is_ignored : Option String → String → Bool
is_ignored none i = Bool.false
is_ignored (some j) i = i == j

module _ (normalized_name : String → String) where
  unfoldable pub require_unique_vault_tag_name : Vault → String → Option String → Result (Unit {0})
  require_unique_vault_tag_name vault name ignored_tag_id =
      if any
        (λ tag.
          not (is_ignored ignored_tag_id tag.id)
          && normalized_name tag.name == normalized_name name)
        vault.tags
      then err duplicate_vault_tag_name
      else ok tt

  unfoldable pub add_tag_to_vault : Vault → TagInput → String → Result Vault
  unfolding require_unique_vault_tag_name
  add_tag_to_vault vault input device_id =
      let v = increment_version_vector vault.version_vector device_id in
      let tag : Tag = record {
        input = input;
        version_vector =
            added_version (find_id deleted_item input.id vault.deleted_tags) v device_id;
      } in
      if some_id tag_item input.id vault.tags then err (duplicate_vault_tag input.id) else (do
        require_unique_vault_tag_name vault input.name none
        ok (record vault {
          version_vector = v;
          tags = vault.tags ++ tag ∷ [];
          deleted_tags = without_id deleted_item input.id vault.deleted_tags;
        }))

  unfoldable pub update_tag_in_vault : Vault → String → TagChange → String → Result Vault
  unfolding require_unique_vault_tag_name replace_id
  update_tag_in_vault vault tag_id input device_id = elim (find_id tag_item tag_id vault.tags) [
    | none ↦ ok vault
    | some current ↦ do
      require_unique_vault_tag_name vault input.name (some tag_id)
      ok (record vault {
        version_vector = increment_version_vector vault.version_vector device_id;
        tags =
            replace_id tag_item tag_id
              (record {
                input = record (current.input) {
                  name = input.name;
                  group_id = input.group_id;
                  color = input.color;
                  shade = input.shade;
                };
                version_vector = increment_version_vector current.version_vector device_id;
              })
              vault.tags;
      })
  ]

unfoldable pub remove_tag_from_vault : Vault → String → String → ℕ → Result Vault
remove_tag_from_vault vault tag_id device_id deleted_at =
    elim (find_id tag_item tag_id vault.tags) [
      | none ↦ ok vault
      | some tag ↦
          let entry_count = length (filter (λ entry. contains entry.tags tag_id) vault.entries) in
          if ltb 0 entry_count
          then err (vault_tag_in_use tag_id entry_count)
          else ok (record vault {
            version_vector = increment_version_vector vault.version_vector device_id;
            tags = without_id tag_item tag_id vault.tags;
            deleted_tags =
                without_id deleted_item tag_id vault.deleted_tags
                ++ (record {
                  id = tag_id;
                  version_vector = increment_version_vector tag.version_vector device_id;
                  deleted_at = deleted_at;
                })
                  ∷ [];
          })
    ]
