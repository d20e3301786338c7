-- ===== src/Vault/Organization/Exact.antt =====
-- `requireValidVaultOrganization` of vault-organization-reference.policy.ts accepts a vault exactly
-- when it is organized.
use engr_serverless_pm.Base.{
  zero, String, ◌≡◌, refl, sym, ◌∙◌, ◌↔◌, inl, inr, true, false, ◌||◌, Option, none, some, List, [],
  ◌∷◌, ok, >>=-eq-ok, bind_ok, folder_repeated, invalid_identity, deleted_tag_repeated, arith, ◌==◌,
  eq_iff, Bool-cases, any, contains, contains-set_of, set_of,
}
use engr_serverless_pm.Vault.{
  Vault, Item, Tag, Folder, PasswordEntry, folder_item, tag_item, deleted_item, ids,
}
use engr_serverless_pm.Vault.Collections.{All, All-map}
use engr_serverless_pm.Vault.Sound.{IsSeparate}
use engr_serverless_pm.Vault.Organization.{
  refuse_if, has_invalid_identity, repeats, lacks_parent, require_tag_groups,
  require_tag_groups_unique, require_tags_unique, require_folder_tree,
  require_valid_vault_organization,
}
use engr_serverless_pm.Vault.Organization.Sets.{Extends-empty_iff, repeats_iff}
use engr_serverless_pm.Vault.Organization.Loops.{
  or_false_iff, not-false_iff, HasFolder, group_ids, Stands, tag_groups_iff, entry_folders_iff,
  groups_unique_iff, tags_unique_iff, folder_tree_iff,
}
use engr_serverless_pm.Vault.Tree.{ancestor, Rooted, Rooted-up, absent_up}
use engr_serverless_pm.Vault.Tree.Kept.{IsThere, IsTree}
use engr_serverless_pm.Vault.Organization.Valid.{
  IsOrganized, refuse_iff, Apart-of_all, Apart-of_any, identities_iff,
}

IsThere-iff :
    (folders : List Folder) (o : Option String)
    → (lacks_parent (set_of (ids folder_item folders)) o ≡ false) ↔ IsThere folders o
IsThere-iff folders none = (λ e. tt, λ h. refl)
IsThere-iff folders (some i) =
    let (present, absent) = not-false_iff (contains (set_of (ids folder_item folders)) i) in
    let same = contains-set_of (ids folder_item folders) i in
    (λ e. sym same ∙ present e, λ h. absent (same ∙ h))

forest_of_all :
    (folders fs : List Folder)
    → All (λ f. Rooted folders (some f.id)) fs
    → (i : String) → contains (ids folder_item fs) i ≡ true
    → Rooted folders (some i)
forest_of_all folders [] h i m = absurd (ground arith)
forest_of_all folders (f ∷ fs) (r, h) i m = elim (Bool-cases (f.id == i)) [
  | inl same ↦ let e = (eq_iff f.id i).0 same in rw (← e) r
  | inr other ↦ forest_of_all folders fs h i (ground arith)
]

absent-Rooted :
    (folders : List Folder) (i : String)
    → contains (ids folder_item folders) i ≡ false
    → Rooted folders (some i)
unfolding ancestor
absent-Rooted folders i h = Rooted-up folders i (zero, absent_up folders i h)

all_of_forest :
    {A : Type 0} (P : String → Type 0) (item : Item A) (xs : List A)
    → ((i : String) → P i)
    → All (λ a. P (item.id a)) xs
all_of_forest P item [] h = tt
all_of_forest P item (x ∷ xs) h = (h (item.id x), all_of_forest P item xs h)

IsTree-iff :
    (normalized_name : String → String) (folders : List Folder)
    → All (Stands normalized_name folders (set_of (ids folder_item folders)) []) folders
      ↔ IsTree folders
IsTree-iff normalized_name folders = (
  λ h. record {
    parents = All-map _ _ (λ f (a, b, c). (IsThere-iff folders f.parent_id).0 a) folders h;
    forest = λ i. elim (Bool-cases (contains (ids folder_item folders) i)) [
      | inl there ↦ forest_of_all folders folders (All-map _ _ (λ f (a, b, c). b) folders h) i there
      | inr absent ↦ absent-Rooted folders i absent
    ];
  },
  λ tree.
      All-map _ _ (λ f t. ((IsThere-iff folders f.parent_id).1 t, tree.forest f.id, refl)) folders
        tree.parents,
)

groups_listed :
    (xs : List String) (ts : List Tag)
    → All (λ t. contains (set_of xs) t.group_id ≡ true) ts
      ↔ All (λ t. contains xs t.group_id ≡ true) ts
groups_listed xs ts = (
  All-map _ _ (λ t h. sym (contains-set_of xs t.group_id) ∙ h) ts,
  All-map _ _ (λ t h. contains-set_of xs t.group_id ∙ h) ts,
)

folders_listed :
    (xs : List String) (es : List PasswordEntry)
    → All (HasFolder (set_of xs)) es ↔ All (HasFolder xs) es
folders_listed xs es = (
  All-map _ _ (λ e h. ground (arith, contains-set_of xs e.folder_id, h)) es,
  All-map _ _ (λ e h. ground (arith, contains-set_of xs e.folder_id, h)) es,
)

module _ (normalized_name : String → String) (vault : Vault) where
  abbrev tag_ids : List String
  tag_ids = ids tag_item vault.tags

  abbrev deleted_tag_ids : List String
  deleted_tag_ids = ids deleted_item vault.deleted_tags

  abbrev folder_ids : List String
  folder_ids = ids folder_item vault.folders

  abbrev deleted_folder_ids : List String
  deleted_folder_ids = ids deleted_item vault.deleted_folders

  folders_iff :
      ((repeats folder_ids
          || repeats deleted_folder_ids
          || any (contains (set_of deleted_folder_ids)) (set_of folder_ids))
        ≡ false)
      ↔ IsSeparate folder_ids deleted_folder_ids
  folders_iff =
      let shared = any (contains (set_of deleted_folder_ids)) (set_of folder_ids) in
      let (parts, whole) = or_false_iff (repeats folder_ids || repeats deleted_folder_ids) shared in
      let (parts', whole') = or_false_iff (repeats folder_ids) (repeats deleted_folder_ids) in
      let (once, once') = repeats_iff folder_ids in
      let (deleted_once, deleted_once') = repeats_iff deleted_folder_ids in
      let (apart, apart') = Apart-of_any deleted_folder_ids folder_ids in
      (
        λ e.
            let (h, z) = parts e in
            let (x, y) = parts' h in
            record { active_once = once x; deleted_once = deleted_once y; apart = apart z },
        λ h. whole (whole' (once' h.active_once, deleted_once' h.deleted_once), apart' h.apart),
      )

  organized :
      require_valid_vault_organization normalized_name vault ≡ ok tt
      → IsOrganized normalized_name vault
  unfolding require_valid_vault_organization set_of
  organized e =
      let (_, a, e₁) = >>=-eq-ok (refuse_if (has_invalid_identity vault) invalid_identity) _ e in
      let (groups, b, e₂) =
        >>=-eq-ok (require_tag_groups_unique normalized_name [] [] vault.tag_groups) _ e₁ in
      let (_, c, e₃) = >>=-eq-ok (require_tag_groups groups vault.tags) _ e₂ in
      let (_, d, e₄) = >>=-eq-ok (refuse_if (repeats deleted_tag_ids) deleted_tag_repeated) _ e₃ in
      let (_, f, e₅) =
        >>=-eq-ok (require_tags_unique normalized_name (set_of deleted_tag_ids) [] [] vault.tags) _
          e₄ in
      let (_, g, e₆) = >>=-eq-ok (refuse_if _ folder_repeated) _ e₅ in
      let (_, h, k) =
        >>=-eq-ok
          (require_folder_tree normalized_name vault.folders (set_of folder_ids) [] vault.folders) _
          e₆ in
      let (tag_identities, folder_identities) =
        (identities_iff vault).0 ((refuse_iff _ invalid_identity).0 a) in
      let (groups_new, names_new, made) =
        (groups_unique_iff normalized_name [] [] vault.tag_groups groups).0 b in
      let (tags_new, tag_names_new, tags_apart) =
        (tags_unique_iff normalized_name (set_of deleted_tag_ids) [] [] vault.tags).0 f in
      let (stands, siblings) =
        (folder_tree_iff normalized_name vault.folders (set_of folder_ids) [] vault.folders).0 h in
      record {
        tag_ids = tag_identities;
        folder_ids = folder_identities;
        groups_once = (Extends-empty_iff _).0 groups_new;
        group_names_once = (Extends-empty_iff _).0 names_new;
        tag_groups =
            (groups_listed _ vault.tags).0
              (rw (← made) at ((tag_groups_iff groups vault.tags).0 c));
        tags = record {
          active_once = (Extends-empty_iff _).0 tags_new;
          deleted_once = (repeats_iff _).0 ((refuse_iff _ deleted_tag_repeated).0 d);
          apart = (Apart-of_all tag_item deleted_tag_ids vault.tags).0 tags_apart;
        };
        tag_names_once = (Extends-empty_iff _).0 tag_names_new;
        folders = folders_iff.0 ((refuse_iff _ folder_repeated).0 g);
        tree = (IsTree-iff normalized_name vault.folders).0 stands;
        sibling_names = siblings;
        entry_folders =
            (folders_listed folder_ids vault.entries).0
              ((entry_folders_iff (set_of folder_ids) vault.entries).0 k);
      }

  accepted :
      IsOrganized normalized_name vault
      → require_valid_vault_organization normalized_name vault ≡ ok tt
  unfolding require_valid_vault_organization set_of
  accepted o =
      let groups = set_of (group_ids normalized_name vault.tag_groups) in
      bind_ok (refuse_if (has_invalid_identity vault) invalid_identity) _ tt
        ((refuse_iff _ invalid_identity).1 ((identities_iff vault).1 (o.tag_ids, o.folder_ids)))
        (bind_ok (require_tag_groups_unique normalized_name [] [] vault.tag_groups) _ groups
          ((groups_unique_iff normalized_name [] [] vault.tag_groups groups).1 (
            (Extends-empty_iff _).1 o.groups_once,
            (Extends-empty_iff _).1 o.group_names_once,
            refl,
          ))
          (bind_ok (require_tag_groups groups vault.tags) _ tt
            ((tag_groups_iff groups vault.tags).1 ((groups_listed _ vault.tags).1 o.tag_groups))
            (bind_ok (refuse_if (repeats deleted_tag_ids) deleted_tag_repeated) _ tt
              ((refuse_iff _ deleted_tag_repeated).1 ((repeats_iff _).1 o.tags.deleted_once))
              (bind_ok
                (require_tags_unique normalized_name (set_of deleted_tag_ids) [] [] vault.tags) _ tt
                ((tags_unique_iff normalized_name (set_of deleted_tag_ids) [] [] vault.tags).1 (
                  (Extends-empty_iff _).1 o.tags.active_once,
                  (Extends-empty_iff _).1 o.tag_names_once,
                  (Apart-of_all tag_item deleted_tag_ids vault.tags).1 o.tags.apart,
                ))
                (bind_ok (refuse_if _ folder_repeated) _ tt
                  ((refuse_iff _ folder_repeated).1 (folders_iff.1 o.folders))
                  (bind_ok
                    (require_folder_tree normalized_name vault.folders (set_of folder_ids) []
                      vault.folders)
                    _ tt
                    ((folder_tree_iff normalized_name vault.folders (set_of folder_ids) []
                        vault.folders).1
                      ((IsTree-iff normalized_name vault.folders).1 o.tree, o.sibling_names))
                    ((entry_folders_iff (set_of folder_ids) vault.entries).1
                      ((folders_listed folder_ids vault.entries).1 o.entry_folders))))))))

-- A vault passes exactly when it is organized.
pub organization_iff :
    (normalized_name : String → String) (vault : Vault)
    → (require_valid_vault_organization normalized_name vault ≡ ok tt)
      ↔ IsOrganized normalized_name vault
organization_iff normalized_name vault =
    (organized normalized_name vault, accepted normalized_name vault)
