-- ===== src/Vault/TagReferences/Exact.antt =====
-- What vault-tag-reference.policy.ts accepts.
use engr_serverless_pm.Base.{
  String, ◌≡◌, refl, ◌↔◌, inl, inr, true, none, List, [], ◌∷◌, ok, arith, Bool-cases, Option-cases,
  contains, contains-set_of, set_of,
}
use engr_serverless_pm.Vault.{Vault, PasswordEntry, tag_item, ids}
use engr_serverless_pm.Vault.Collections.{All}
use engr_serverless_pm.Vault.TagReferences.{
  missing_tag_id, require_vault_tags_exist, require_entry_tags, require_valid_vault_tag_references,
}

-- Each of the tags is one of those listed.
abbrev pub AreListed : List String → List String → Type 0
AreListed tag_ids = All (λ i. contains tag_ids i ≡ true)

missing_iff :
    (active wanted : List String)
    → (missing_tag_id (set_of active) wanted ≡ none) ↔ AreListed active wanted
missing_iff active [] = (λ e. tt, λ h. refl)
missing_iff active (i ∷ wanted) =
    let (to, from) = missing_iff active wanted in
    let same = contains-set_of active i in
    elim (Bool-cases (contains active i)) [
      | inl there ↦ rw (same, there) (λ e. (refl, to e), λ h. from h.1)
      | inr absent ↦
          rw (same, absent) (λ e. absurd (ground arith), λ h. absurd (ground (arith, h.0)))
    ]

-- Tags are accepted exactly when each of them is in the vault.
pub tags_exist_iff :
    (vault : Vault) (tag_ids : List String)
    → (require_vault_tags_exist vault tag_ids ≡ ok tt) ↔ AreListed (ids tag_item vault.tags) tag_ids
unfolding require_vault_tags_exist
tags_exist_iff vault tag_ids =
    let (to, from) = missing_iff (ids tag_item vault.tags) tag_ids in
    elim (Option-cases (missing_tag_id (set_of (ids tag_item vault.tags)) tag_ids)) [
      | inl none_missing ↦
          rw (none_missing, require_vault_tags_exist) (λ e. to none_missing, λ h. refl)
      | inr (i, missing) ↦
          rw (missing, require_vault_tags_exist)
            (λ e. absurd (ground arith), λ h. absurd (ground (arith, from h, missing)))
    ]

entry_tags_iff :
    (active : List String) (es : List PasswordEntry)
    → (require_entry_tags (set_of active) es ≡ ok tt) ↔ All (λ e. AreListed active e.tags) es
unfolding require_entry_tags
entry_tags_iff active [] = (λ e. tt, λ h. refl)
entry_tags_iff active (e ∷ es) =
    let (to, from) = entry_tags_iff active es in
    let (listed, unlisted) = missing_iff active e.tags in
    elim (Option-cases (missing_tag_id (set_of active) e.tags)) [
      | inl none_missing ↦
          rw (none_missing, require_entry_tags) (λ h. (listed none_missing, to h), λ h. from h.1)
      | inr (i, missing) ↦
          rw (missing, require_entry_tags)
            (λ h. absurd (ground arith), λ h. absurd (ground (arith, unlisted h.0, missing)))
    ]

-- The vault's entries are accepted exactly when each names tags of the vault only.
pub tag_references_iff :
    (vault : Vault)
    → (require_valid_vault_tag_references vault ≡ ok tt)
      ↔ All (λ e. AreListed (ids tag_item vault.tags) e.tags) vault.entries
unfolding require_valid_vault_tag_references
tag_references_iff vault = entry_tags_iff (ids tag_item vault.tags) vault.entries
