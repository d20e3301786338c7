-- ===== src/Vault/Tree/Kept.antt =====
-- When the folders of packages/core/src/domain/organization/folder.type.ts are a tree, and that
-- adding, replacing and removing one keeps them so.
use engr_serverless_pm.Base.{
  zero, suc, String, ◌≡◌, refl, ◌∙◌, inl, inr, Bool, true, false, Option, none, some, List, [], ◌∷◌,
  ◌++◌, ok, arith, eq_iff, Bool-cases, Option-cases, contains, Distinct, filter, length, ltb,
  contains-append,
}
use engr_serverless_pm.Vault.{Vault, Folder, folder_item, ids, some_id, replace_id, without_id}
use engr_serverless_pm.Vault.Collections.{
  All, All-map, All-append, All-filter, All-replace, contains-ids, ids-replace, contains-without,
}
use engr_serverless_pm.Vault.Sound.{ids-append_one}
use engr_serverless_pm.Vault.Folders.{same_parent, folder_by_id, parent_of, require_folder_parent}
use engr_serverless_pm.Vault.Tree.{up, ancestor, ancestor-none, Avoids, Rooted}
use engr_serverless_pm.Vault.Tree.Forest.{
  IsForest, changed-IsForest, up-append, up-replace, up-without,
}

abbrev pub IsThere : List Folder → Option String → Type 0
IsThere folders none = Unit {0}
IsThere folders (some i) = contains (ids folder_item folders) i ≡ true

-- The parent of each folder is there, and climbing from parent to parent comes to an end.
pub record IsTree (folders : List Folder) : Type 0 where
  pub parents : All (λ f. IsThere folders f.parent_id) folders
  pub forest : IsForest folders

IsThere-grow :
    (folders more : List Folder)
    → ((i : String)
        → contains (ids folder_item folders) i ≡ true
        → contains (ids folder_item more) i ≡ true)
    → (o : Option String) → IsThere folders o
    → IsThere more o
IsThere-grow folders more h none t = tt
IsThere-grow folders more h (some i) t = h i t

pub IsThere-of_require :
    (vault : Vault) (o : Option String) (u : Unit {0})
    → require_folder_parent vault o ≡ ok u
    → IsThere vault.folders o
unfolding require_folder_parent
IsThere-of_require vault none u e = tt
IsThere-of_require vault (some i) u e = elim (Bool-cases (some_id folder_item i vault.folders)) [
  | inl there ↦ contains-ids folder_item vault.folders i ∙ there
  | inr absent ↦ absurd (ground arith)
]

All-by_id :
    (P : Folder → Type 0) (folders : List Folder) (i : String) (f : Folder)
    → All P folders
    → folder_by_id folders i ≡ some f
    → P f
unfolding folder_by_id
All-by_id P [] i f h e = absurd (ground arith)
All-by_id P (g ∷ folders) i f (p, h) e = elim (Option-cases (folder_by_id folders i)) [
  | inr (k, found) ↦ All-by_id P folders i f h (ground arith)
  | inl last ↦ let same : g ≡ f = ground arith in rw (← same) p
]

pub up-IsThere :
    (folders : List Folder) (o : Option String)
    → All (λ f. IsThere folders f.parent_id) folders
    → IsThere folders (up folders o)
up-IsThere folders none h = tt
up-IsThere folders (some i) h = elim (Option-cases (folder_by_id folders i)) [
  | inl absent ↦ rw (absent, parent_of) tt
  | inr (f, found) ↦
      rw (found, parent_of) (All-by_id (λ g. IsThere folders g.parent_id) folders i f h found)
]

-- A climb in a tree meets no folder that is not there.
absent-Avoids :
    (folders : List Folder) (i : String) (o : Option String)
    → All (λ f. IsThere folders f.parent_id) folders
    → contains (ids folder_item folders) i ≡ false
    → IsThere folders o
    → Avoids folders i o
unfolding ancestor
absent-Avoids folders i none h absent t zero = λ e. absurd (ground arith)
absent-Avoids folders i (some j) h absent t zero = λ e. absurd (ground (arith, e))
absent-Avoids folders i o h absent t (suc k) =
    absent-Avoids folders i (up folders o) h absent (up-IsThere folders o h) k

Rooted-of_parent : (folders : List Folder) (o : Option String) → IsForest folders → Rooted folders o
unfolding ancestor
Rooted-of_parent folders none h = (zero, refl)
Rooted-of_parent folders (some i) h = h i

-- A new folder under one that is there.
pub append-IsTree :
    (folders : List Folder) (f : Folder)
    → IsTree folders
    → contains (ids folder_item folders) f.id ≡ false
    → IsThere folders f.parent_id
    → IsTree (folders ++ f ∷ [])
append-IsTree folders f tree new there =
    let grows = IsThere-grow folders (folders ++ f ∷ []) λ i m.
      rw (ids-append_one folder_item folders f)
        (contains-append (ids folder_item folders) (f.id ∷ []) i ∙ ground (arith, m)) in
    record {
      parents =
          All-append _ folders (f ∷ []) (All-map _ _ (λ g. grows g.parent_id) folders tree.parents)
            (grows f.parent_id there, tt);
      forest =
          changed-IsForest folders (folders ++ f ∷ []) f.id f.parent_id (up-append folders f)
            (Rooted-of_parent folders f.parent_id tree.forest)
            (absent-Avoids folders f.id f.parent_id tree.parents new there) tree.forest;
    }

-- A folder replaced by one with another parent, from which the climb ends without meeting it.
pub replace-IsTree :
    (folders : List Folder) (i : String) (f : Folder)
    → IsTree folders
    → Distinct (ids folder_item folders)
    → contains (ids folder_item folders) i ≡ true
    → f.id ≡ i
    → IsThere folders f.parent_id
    → Avoids folders i f.parent_id
    → IsTree (replace_id folder_item i f folders)
replace-IsTree folders i f tree once there own parent_there avoids =
    let same = ids-replace folder_item i f folders own in
    let grows = IsThere-grow folders (replace_id folder_item i f folders) (λ j m. rw same m) in
    record {
      parents =
          All-replace folder_item _ i f folders
            (All-map _ _ (λ g. grows g.parent_id) folders tree.parents)
            (grows f.parent_id parent_there);
      forest =
          changed-IsForest folders (replace_id folder_item i f folders) i f.parent_id
            (up-replace folders i f once there own)
            (Rooted-of_parent folders f.parent_id tree.forest) avoids tree.forest;
    }

none_of_filter :
    {A : Type 0} (p : A → Bool) (xs : List A)
    → ltb 0 (length (filter p xs)) ≡ false
    → All (λ a. p a ≡ false) xs
none_of_filter p [] h = tt
none_of_filter p (x ∷ xs) h = elim (Bool-cases (p x)) [
  | inl e ↦ absurd (ground arith)
  | inr e ↦ (e, none_of_filter p xs (ground arith))
]

IsThere-without :
    (folders : List Folder) (i : String) (o : Option String)
    → IsThere folders o
    → same_parent o (some i) ≡ false
    → IsThere (without_id folder_item i folders) o
IsThere-without folders i none t e = tt
IsThere-without folders i (some j) t e =
    contains-without folder_item i folders j ∙ ground (arith, eq_iff i j, eq_iff j i)

-- A folder that is no folder's parent goes.
pub without-IsTree :
    (folders : List Folder) (i : String)
    → IsTree folders
    → ltb 0 (length (filter (λ f. same_parent f.parent_id (some i)) folders)) ≡ false
    → IsTree (without_id folder_item i folders)
unfolding ancestor
without-IsTree folders i tree childless = record {
  parents = All-filter _ _ folders (
      All-both-map folders tree.parents
        (none_of_filter (λ f. same_parent f.parent_id (some i)) folders childless));
  forest =
      changed-IsForest folders (without_id folder_item i folders) i none (up-without folders i)
        (zero, refl) (λ k met. absurd (ground (arith, ancestor-none folders k))) tree.forest;
}
  where
    All-both-map :
        (fs : List Folder)
        → All (λ f. IsThere folders f.parent_id) fs
        → All (λ f. same_parent f.parent_id (some i) ≡ false) fs
        → All (λ f. IsThere (without_id folder_item i folders) f.parent_id) fs
    All-both-map [] h k = tt
    All-both-map (f ∷ fs) (t, h) (e, k) =
        (IsThere-without folders i f.parent_id t e, All-both-map fs h k)
