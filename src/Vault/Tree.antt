-- ===== src/Vault/Tree.antt =====
-- The tree of folders: parents, and who is an ancestor of whom. Its children say what the loops of
-- packages/core/src/domain/vault that climb the tree find, and that the vault's folders stay a tree.
pub mod Climb
pub mod Moves
pub mod Forest
pub mod Kept
pub mod Mutations
use engr_serverless_pm.Base.{
  ℕ, zero, suc, ◌+◌, ◌≤◌, ◌<◌, String, ◌≡◌, refl, sym, ap, ◌∙◌, ◌≢◌, ◌↔◌, ◌⊎◌, inl, inr, Bool, true,
  false, not, ◌&&◌, ◌||◌, Option, none, some, List, [], ◌∷◌, ◌++◌, arith, if◌then◌else◌, ◌==◌,
  eq_iff, Bool-cases, any, filter, length, contains, contains-set_add, set_add,
}
use engr_serverless_pm.Vault.{Folder, folder_item, ids, some_id}
use engr_serverless_pm.Vault.Folders.{folder_by_id, parent_of, finds_cycle, cycle_fuel}
use engr_serverless_pm.Vault.Organization.{comes_back}

folder_absent :
    (folders : List Folder) (i : String)
    → contains (ids folder_item folders) i ≡ false
    → folder_by_id folders i ≡ none
unfolding folder_by_id
folder_absent [] i h = refl
folder_absent (f ∷ fs) i h = ground (arith, folder_absent fs i)

module _ (folders : List Folder) where
  -- The parent of a folder, none for the root and for a folder that is not there.
  abbrev pub up : Option String → Option String
  up none = none
  up (some i) = parent_of (folder_by_id folders i)

  unfoldable pub ancestor : ℕ → Option String → Option String
  ancestor zero o = o
  ancestor (suc n) o = ancestor n (up o)

  -- Going from parent to parent comes to an end.
  abbrev pub Rooted : Option String → Type 0
  Rooted o = (n : ℕ) × (ancestor n o ≡ none)

  pub ancestor-none : (n : ℕ) → ancestor n none ≡ none
  unfolding ancestor
  ancestor-none zero = refl
  ancestor-none (suc n) = ancestor-none n

  pub up-ancestor : (n : ℕ) (o : Option String) → up (ancestor n o) ≡ ancestor n (up o)
  unfolding ancestor
  up-ancestor zero o = refl
  up-ancestor (suc n) o = up-ancestor n (up o)

  -- Who is rooted is no ancestor of itself.
  pub rooted_once :
      (n k : ℕ) (o : Option String) → ancestor n o ≡ none → ancestor (suc k) o ≡ o → o ≡ none
  unfolding ancestor
  rooted_once zero k o ended again = ended
  rooted_once (suc n) k o ended again =
      let parent = rooted_once n k (up o) ended (sym (up-ancestor k (up o)) ∙ ap up again) in
      sym again ∙ rw parent (ancestor-none k)

  -- Going up from here does not meet the folder.
  abbrev pub Avoids : String → Option String → Type 0
  Avoids i o = (k : ℕ) → ancestor k o ≢ some i

  -- Each visited folder has the current one as an ancestor, or is not met from there.
  abbrev pub Climbed : List String → Option String → Type 0
  Climbed visited o =
      (j : String)
      → contains visited j ≡ true
      → ((k : ℕ) × (ancestor (suc k) (some j) ≡ o)) ⊎ Avoids j o

  pub climb :
      (visited : List String) (i : String)
      → Climbed visited (some i)
      → Climbed (set_add visited i) (up (some i))
  unfolding ancestor
  climb visited i h j m = elim (Bool-cases (i == j)) [
    | inl same ↦ inl (zero, rw ((eq_iff i j).0 same) refl)
    | inr other ↦ elim (h j (ground (arith, contains-set_add visited i j))) [
      | inl (k, e) ↦ inl (suc k, sym (up-ancestor k (up (some j))) ∙ ap up e)
      | inr avoids ↦ inr (λ k. avoids (suc k))
    ]
  ]

  pub Rooted-up : (i : String) → Rooted (up (some i)) → Rooted (some i)
  unfolding ancestor
  Rooted-up i (n, e) = (suc n, e)

  pub up-Rooted : (o : Option String) → Rooted o → Rooted (up o)
  unfolding ancestor
  up-Rooted o (zero, e) = (zero, rw e refl)
  up-Rooted o (suc n, e) = (n, e)

  pub absent_up : (i : String) → contains (ids folder_item folders) i ≡ false → up (some i) ≡ none
  absent_up i h = rw (folder_absent folders i h) refl
