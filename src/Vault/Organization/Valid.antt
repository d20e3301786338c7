-- ===== src/Vault/Organization/Valid.antt =====
-- What vault-organization-reference.policy.ts requires of a vault.
use engr_serverless_pm.Base.{
  String, ◌≡◌, refl, sym, ◌∙◌, ◌↔◌, inl, inr, Bool, true, false, not, List, [], ◌∷◌, ◌++◌, ok,
  OrganizationFault, arith, ◌==◌, eq_iff, Bool-cases, any, contains, contains-set_of,
  any_of_contains, contains_of_any, set_of, Distinct,
}
use engr_serverless_pm.Vault.{Vault, Item, folder_item, tag_item, deleted_item, ids}
use engr_serverless_pm.Vault.Collections.{All}
use engr_serverless_pm.Vault.Sound.{IsSeparate}
use engr_serverless_pm.Vault.Identity.{is_tag_id, is_folder_id}
use engr_serverless_pm.Vault.Organization.{refuse_if, has_invalid_identity}
use engr_serverless_pm.Vault.Organization.Loops.{
  or_false_iff, not-false_iff, HasFolder, group_names, tag_names, group_ids, DistinctSiblings,
}
use engr_serverless_pm.Vault.Tree.Kept.{IsTree}

-- A vault whose tags and folders are organized.
pub record IsOrganized (normalized_name : String → String) (vault : Vault) : Type 0 where
  pub tag_ids :
      All (λ i. is_tag_id i ≡ true) (ids tag_item vault.tags ++ ids deleted_item vault.deleted_tags)
  pub folder_ids :
      All
        (λ i. is_folder_id i ≡ true)
        (ids folder_item vault.folders ++ ids deleted_item vault.deleted_folders)
  pub groups_once : Distinct (group_ids normalized_name vault.tag_groups)
  pub group_names_once : Distinct (group_names normalized_name vault.tag_groups)
  pub tag_groups :
      All (λ t. contains (group_ids normalized_name vault.tag_groups) t.group_id ≡ true) vault.tags
  pub tags : IsSeparate (ids tag_item vault.tags) (ids deleted_item vault.deleted_tags)
  pub tag_names_once : Distinct (tag_names normalized_name vault.tags)
  pub folders : IsSeparate (ids folder_item vault.folders) (ids deleted_item vault.deleted_folders)
  pub tree : IsTree vault.folders
  pub sibling_names : DistinctSiblings normalized_name vault.folders
  pub entry_folders : All (HasFolder (ids folder_item vault.folders)) vault.entries

pub refuse_iff :
    (test : Bool) (fault : OrganizationFault) → (refuse_if test fault ≡ ok tt) ↔ (test ≡ false)
refuse_iff true fault = (λ h. absurd (cc), λ h. absurd (cc))
refuse_iff false fault = (λ h. refl, λ h. refl)

none_bad_iff :
    (p : String → Bool) (xs : List String)
    → (any (λ x. not (p x)) xs ≡ false) ↔ All (λ x. p x ≡ true) xs
none_bad_iff p [] = (λ h. tt, λ h. refl)
none_bad_iff p (x ∷ xs) =
    let (to, from) = none_bad_iff p xs in
    let (parts, whole) = or_false_iff (not (p x)) (any (λ y. not (p y)) xs) in
    let (good, bad) = not-false_iff (p x) in
    (λ e. let (h, k) = parts e in (good h, to k), λ (h, k). whole (bad h, from k))

-- What is listed in `xs` is not in `ds`.
abbrev pub Apart : List String → List String → Type 0
Apart xs ds = (i : String) → contains xs i ≡ true → contains ds i ≡ false

pub Apart-of_all :
    {A : Type 0} (item : Item A) (ds : List String) (xs : List A)
    → All (λ a. contains (set_of ds) (item.id a) ≡ false) xs ↔ Apart (ids item xs) ds
Apart-of_all item ds [] = (λ h i m. absurd (ground arith), λ h. tt)
Apart-of_all item ds (x ∷ xs) =
    let (to, from) = Apart-of_all item ds xs in
    (
      λ (h, k) i m. elim (Bool-cases (item.id x == i)) [
        | inl same ↦
            let e = (eq_iff (item.id x) i).0 same in
            rw (← e) (sym (contains-set_of ds (item.id x)) ∙ h)
        | inr other ↦ to k i (ground arith)
      ],
      λ h. (
        contains-set_of ds (item.id x)
            ∙ h (item.id x) (ground (arith, eq_iff (item.id x) (item.id x))),
        from (λ i m. h i (ground arith)),
      ),
    )

pub Apart-of_any :
    (ds xs : List String) → (any (contains (set_of ds)) (set_of xs) ≡ false) ↔ Apart xs ds
Apart-of_any ds xs = (
  λ e i m. elim (Bool-cases (contains ds i)) [
    | inl there ↦
        let found =
          any_of_contains (contains (set_of ds)) (set_of xs) i (contains-set_of xs i ∙ m)
            (contains-set_of ds i ∙ there) in
        absurd (cc)
    | inr absent ↦ absent
  ],
  λ h. elim (Bool-cases (any (contains (set_of ds)) (set_of xs))) [
    | inl found ↦
        let (i, m, k) = contains_of_any (contains (set_of ds)) (set_of xs) found in
        let absent = h i (sym (contains-set_of xs i) ∙ m) in
        absurd (ground (arith, contains-set_of ds i))
    | inr free ↦ free
  ],
)

pub identities_iff :
    (vault : Vault)
    → (has_invalid_identity vault ≡ false) ↔ (
        All
          (λ i. is_tag_id i ≡ true)
          (ids tag_item vault.tags ++ ids deleted_item vault.deleted_tags)
        × All
            (λ i. is_folder_id i ≡ true)
            (ids folder_item vault.folders ++ ids deleted_item vault.deleted_folders))
identities_iff vault =
    let tags = ids tag_item vault.tags ++ ids deleted_item vault.deleted_tags in
    let folders = ids folder_item vault.folders ++ ids deleted_item vault.deleted_folders in
    let (parts, whole) =
      or_false_iff (any (λ i. not (is_tag_id i)) tags) (any (λ i. not (is_folder_id i)) folders) in
    let (t, t') = none_bad_iff is_tag_id tags in
    let (f, f') = none_bad_iff is_folder_id folders in
    (λ e. let (h, k) = parts e in (t h, f k), λ (h, k). whole (t' h, f' k))
