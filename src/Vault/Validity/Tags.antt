-- ===== src/Vault/Validity/Tags.antt =====
-- The tag mutations of packages/core/src/domain/vault keep a vault valid.
use engr_serverless_pm.Base.{
  ℕ, String, refl, inl, inr, none, some, OnOk, OnOk->>=, Bool-cases, Option-cases, ltb, length,
  filter, contains,
}
use engr_serverless_pm.Versioning.Bounds.{AtMost-increment, increment-AtMost}
use engr_serverless_pm.Vault.{Vault, TagInput, tag_item, find_id, some_id}
use engr_serverless_pm.Vault.Collections.{id_of_find}
use engr_serverless_pm.Vault.Sound.{IsSound-add, IsSound-replace, IsSound-remove}
use engr_serverless_pm.Vault.Tags.{
  TagChange, require_unique_vault_tag_name, add_tag_to_vault, update_tag_in_vault,
  remove_tag_from_vault,
}
use engr_serverless_pm.Vault.Validity.{IsValid, IsValid-grow, find_covered, added_version-AtMost}

module _ (normalized_name : String → String) where
  -- Adding a tag to a valid vault gives a valid vault, unless it is refused.
  pub add_tag-IsValid :
      (vault : Vault) (input : TagInput) (d : String)
      → IsValid vault
      → OnOk IsValid (add_tag_to_vault normalized_name vault input d)
  unfolding add_tag_to_vault
  add_tag-IsValid vault input d s = elim (Bool-cases (some_id tag_item input.id vault.tags)) [
    | inl e ↦ rw e tt
    | inr e ↦ rw e (
        OnOk->>= IsValid (require_unique_vault_tag_name normalized_name vault input.name none) _
          (λ _ _.
            let g = IsValid-grow vault d s in
            record {
              entries = g.entries;
              tags =
                  IsSound-add tag_item _ _ (AtMost-increment vault.version_vector d) vault.tags
                    vault.deleted_tags _ s.tags e
                    (added_version-AtMost vault.version_vector vault.deleted_tags input.id d _ refl
                      s.tags.deleted_covered);
              folders = g.folders;
              device_profiles = g.device_profiles;
            }))
  ]

  -- Updating a tag keeps a vault valid.
  pub update_tag-IsValid :
      (vault : Vault) (i : String) (input : TagChange) (d : String)
      → IsValid vault
      → OnOk IsValid (update_tag_in_vault normalized_name vault i input d)
  unfolding update_tag_in_vault
  update_tag-IsValid vault i input d s = elim (Option-cases (find_id tag_item i vault.tags)) [
    | inl e ↦ rw (e, update_tag_in_vault) s
    | inr (current, e) ↦
        rw (e, update_tag_in_vault)
          (OnOk->>= IsValid
            (require_unique_vault_tag_name normalized_name vault input.name (some i)) _
            (λ _ _.
              let g = IsValid-grow vault d s in
              record {
                entries = g.entries;
                tags =
                    IsSound-replace tag_item _ _ (AtMost-increment vault.version_vector d)
                      vault.tags vault.deleted_tags i _ s.tags
                      (id_of_find tag_item i vault.tags current e)
                      (increment-AtMost current.version_vector vault.version_vector d
                        (find_covered tag_item _ vault.tags i current s.tags.active_covered e));
                folders = g.folders;
                device_profiles = g.device_profiles;
              }))
  ]

-- Removing a tag keeps a vault valid.
pub remove_tag-IsValid :
    (vault : Vault) (i d : String) (deleted_at : ℕ)
    → IsValid vault
    → OnOk IsValid (remove_tag_from_vault vault i d deleted_at)
unfolding remove_tag_from_vault
remove_tag-IsValid vault i d deleted_at s = elim (Option-cases (find_id tag_item i vault.tags)) [
  | inl e ↦ rw (e, remove_tag_from_vault) s
  | inr (tag, e) ↦
      elim (Bool-cases (ltb 0 (length (filter (λ entry. contains entry.tags i) vault.entries)))) [
        | inl used ↦ rw (e, remove_tag_from_vault, used) tt
        | inr free ↦
            let g = IsValid-grow vault d s in
            rw (e, remove_tag_from_vault, free)
              (record {
                entries = g.entries;
                tags =
                    IsSound-remove tag_item _ _ (AtMost-increment vault.version_vector d) vault.tags
                      vault.deleted_tags _ s.tags
                      (increment-AtMost tag.version_vector vault.version_vector d
                        (find_covered tag_item _ vault.tags i tag s.tags.active_covered e));
                folders = g.folders;
                device_profiles = g.device_profiles;
              })
      ]
]
