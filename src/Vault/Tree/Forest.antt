-- ===== src/Vault/Tree/Forest.antt =====
-- What a change of one folder does to the tree of folders.
use engr_serverless_pm.Base.{
  ℕ, zero, suc, String, ◌≡◌, refl, ap, ◌∙◌, inl, inr, true, false, Option, none, some, List, [],
  ◌∷◌, ◌++◌, arith, if◌then◌else◌, ◌==◌, eq_iff, Bool-cases, contains, Distinct,
}
use engr_serverless_pm.Vault.{Folder, folder_item, ids, replace_id, without_id}
use engr_serverless_pm.Vault.Folders.{folder_by_id, parent_of}
use engr_serverless_pm.Vault.Tree.{
  folder_absent, up, ancestor, rooted_once, Avoids, Rooted, Rooted-up,
}

-- The climb from every folder comes to an end.
abbrev pub IsForest : List Folder → Type 0
IsForest folders = (i : String) → Rooted folders (some i)

Rooted-of_IsForest :
    (folders : List Folder) (o : Option String) → IsForest folders → Rooted folders o
unfolding ancestor
Rooted-of_IsForest folders none h = (zero, refl)
Rooted-of_IsForest folders (some i) h = h i

-- Two lists of folders that differ in the parent of one folder.
module _ (before after : List Folder) (i : String) (parent : Option String)
    (changed : (j : String)
      → up after (some j) ≡ (if i == j then parent else up before (some j))) where
  ancestor-changed :
      (n : ℕ) (o : Option String) → Avoids before i o → ancestor after n o ≡ ancestor before n o
  unfolding ancestor
  ancestor-changed zero o avoids = refl
  ancestor-changed (suc n) none avoids = ancestor-changed n none avoids
  ancestor-changed (suc n) (some j) avoids =
      let other : (i == j) ≡ false = elim (Bool-cases (i == j)) [
        | inl same ↦ absurd (avoids zero (ground (arith, eq_iff i j)))
        | inr other ↦ other
      ] in
      let kept : up after (some j) ≡ up before (some j) = changed j ∙ ground arith in
      ap (ancestor after n) kept ∙ ancestor-changed n (up before (some j)) (λ k. avoids (suc k))

  still_Rooted :
      (n : ℕ) (o : Option String)
      → Rooted after parent
      → ancestor before n o ≡ none
      → Rooted after o
  unfolding ancestor
  still_Rooted n none rooted ended = (zero, refl)
  still_Rooted zero (some j) rooted ended = absurd (ground arith)
  still_Rooted (suc n) (some j) rooted ended = elim (Bool-cases (i == j)) [
    | inl same ↦
        let moved : up after (some j) ≡ parent = changed j ∙ ground arith in
        Rooted-up after j (rw moved rooted)
    | inr other ↦
        let kept : up after (some j) ≡ up before (some j) = changed j ∙ ground arith in
        Rooted-up after j (rw kept (still_Rooted n (up before (some j)) rooted ended))
  ]

  -- The folders stay a forest when the climb from the new parent does not meet the folder.
  pub changed-IsForest :
      Rooted before parent → Avoids before i parent → IsForest before → IsForest after
  changed-IsForest (n, ended) avoids forest j =
      let rooted : Rooted after parent = (n, ancestor-changed n parent avoids ∙ ended) in
      let (m, e) = forest j in still_Rooted m (some j) rooted e

-- A folder in a forest is not met by the climb from its parent.
pub Avoids-parent :
    (folders : List Folder) (i : String) → IsForest folders → Avoids folders i (up folders (some i))
unfolding ancestor
Avoids-parent folders i forest k again =
    let (n, ended) = forest i in
    absurd (ground (arith, rooted_once folders n k (some i) ended again))

folder_by_id-append :
    (folders : List Folder) (f : Folder) (j : String)
    → folder_by_id (folders ++ f ∷ []) j ≡ (if f.id == j then some f else folder_by_id folders j)
unfolding folder_by_id
folder_by_id-append [] f j = refl
folder_by_id-append (g ∷ folders) f j = ground (arith, folder_by_id-append folders f j)

folder_by_id-replace :
    (folders : List Folder) (i : String) (f : Folder)
    → Distinct (ids folder_item folders)
    → contains (ids folder_item folders) i ≡ true
    → f.id ≡ i
    → (j : String)
    → folder_by_id (replace_id folder_item i f folders) j
      ≡ (if i == j then some f else folder_by_id folders j)
unfolding folder_by_id replace_id
folder_by_id-replace [] i f d m own j = absurd (ground arith)
folder_by_id-replace (g ∷ folders) i f (new, d) m own j = elim (Bool-cases (g.id == i)) [
  | inl here ↦
      let last : folder_by_id folders i ≡ none =
        folder_absent folders i (ground (arith, eq_iff g.id i, new)) in
      ground (arith, last, eq_iff g.id i, eq_iff i j, eq_iff g.id j, own)
  | inr there ↦ ground (
    arith,
    folder_by_id-replace folders i f d (ground arith) own j,
    eq_iff g.id i,
    eq_iff i j,
    eq_iff g.id j,
  )
]

folder_by_id-without :
    (folders : List Folder) (i j : String)
    → folder_by_id (without_id folder_item i folders) j
      ≡ (if i == j then none else folder_by_id folders j)
unfolding folder_by_id
folder_by_id-without [] i j = ground arith
folder_by_id-without (g ∷ folders) i j =
    ground (arith, folder_by_id-without folders i j, eq_iff g.id i, eq_iff i j, eq_iff g.id j)

pub up-append :
    (folders : List Folder) (f : Folder) (j : String)
    → up (folders ++ f ∷ []) (some j) ≡ (if f.id == j then f.parent_id else up folders (some j))
up-append folders f j = ap parent_of (folder_by_id-append folders f j) ∙ ground arith

pub up-replace :
    (folders : List Folder) (i : String) (f : Folder)
    → Distinct (ids folder_item folders)
    → contains (ids folder_item folders) i ≡ true
    → f.id ≡ i
    → (j : String)
    → up (replace_id folder_item i f folders) (some j)
      ≡ (if i == j then f.parent_id else up folders (some j))
up-replace folders i f d m own j =
    ap parent_of (folder_by_id-replace folders i f d m own j) ∙ ground arith

pub up-without :
    (folders : List Folder) (i j : String)
    → up (without_id folder_item i folders) (some j)
      ≡ (if i == j then none else up folders (some j))
up-without folders i j = ap parent_of (folder_by_id-without folders i j) ∙ ground arith
