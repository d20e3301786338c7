-- ===== src/Vault/Tree/Climb.antt =====
-- The loop that climbs the tree ends within its fuel, and says whether the climb comes back.
use engr_serverless_pm.Base.{
  ℕ, zero, suc, ◌+◌, ◌≤◌, ◌<◌, String, ◌≡◌, refl, sym, ap, ◌∙◌, ◌≢◌, ◌↔◌, inl, inr, Bool, true,
  false, not, Option, none, some, List, [], ◌∷◌, arith, if◌then◌else◌, eq_iff, Bool-cases, filter,
  length, contains, contains-set_add, set_add,
}
use engr_serverless_pm.Vault.{Folder, folder_item, ids}
use engr_serverless_pm.Vault.Folders.{cycle_fuel}
use engr_serverless_pm.Vault.Organization.{comes_back}
use engr_serverless_pm.Vault.Tree.{
  up, ancestor, ancestor-none, rooted_once, Avoids, Climbed, climb, Rooted, Rooted-up, up-Rooted,
  absent_up,
}

length-filter : {A : Type 0} (p : A → Bool) (xs : List A) → length (filter p xs) ≤ length xs
length-filter p [] = omega arith
length-filter p (x ∷ xs) = ground (arith, length-filter p xs)

length-ids : (folders : List Folder) → length (ids folder_item folders) ≡ length folders
length-ids [] = refl
length-ids (f ∷ fs) = ap suc (length-ids fs)

module _ (folders : List Folder) where
  abbrev unseen : List String → ℕ
  unseen visited = length (filter (λ i. not (contains visited i)) (ids folder_item folders))

  -- A folder that is seen now is one less to see.
  unseen-less :
      (visited : List String) (i : String) (xs : List String)
      → contains visited i ≡ false
      → length (filter (λ j. not (contains (set_add visited i) j)) xs)
          + (if contains xs i then 1 else 0)
        ≤ length (filter (λ j. not (contains visited j)) xs)
  unseen-less visited i [] h = omega arith
  unseen-less visited i (x ∷ xs) h =
      let ih = unseen-less visited i xs h in
      ground (arith, contains-set_add visited i x, eq_iff i x, eq_iff x i)

  comes_back-new :
      (fuel : ℕ) (visited : List String) (i : String)
      → contains visited i ≡ false
      → comes_back (suc fuel) folders visited (some i)
        ≡ comes_back fuel folders (set_add visited i) (up folders (some i))
  unfolding comes_back
  comes_back-new fuel visited i new = rw new refl

  comes_back-seen :
      (fuel : ℕ) (visited : List String) (i : String)
      → contains visited i ≡ true
      → comes_back (suc fuel) folders visited (some i) ≡ some true
  unfolding comes_back
  comes_back-seen fuel visited i seen = rw seen refl

  comes_back-none :
      (fuel : ℕ) (visited : List String) (o : Option String)
      → o ≡ none
      → comes_back fuel folders visited o ≡ some false
  unfolding comes_back
  comes_back-none fuel visited none e = refl
  comes_back-none fuel visited (some i) e = absurd (ground arith)

  -- The loop ends within its fuel.
  pub comes_back-some :
      (fuel : ℕ) (visited : List String) (o : Option String)
      → unseen visited < fuel
      → comes_back fuel folders visited o ≢ none
  comes_back-some fuel visited none h =
      λ e. absurd (ground (arith, comes_back-none fuel visited none refl))
  comes_back-some zero visited (some i) h = absurd (omega arith)
  comes_back-some (suc fuel) visited (some i) h = elim (Bool-cases (contains visited i)) [
    | inl seen ↦ λ e. absurd (ground (arith, comes_back-seen fuel visited i seen))
    | inr new ↦ λ e. elim (Bool-cases (contains (ids folder_item folders) i)) [
      | inl there ↦
          let less = unseen-less visited i (ids folder_item folders) new in
          comes_back-some fuel (set_add visited i) (up folders (some i))
            (let one = rw there at less in omega (arith, one))
            (sym (comes_back-new fuel visited i new) ∙ e)
      | inr absent ↦ absurd (
          ground (
            arith,
            comes_back-new fuel visited i new,
            comes_back-none fuel (set_add visited i) (up folders (some i))
                (absent_up folders i absent),
          ))
    ]
  ]

  Rooted-of_comes_back :
      (fuel : ℕ) (visited : List String) (o : Option String)
      → comes_back fuel folders visited o ≡ some false
      → Rooted folders o
  unfolding comes_back ancestor
  Rooted-of_comes_back fuel visited none e = (zero, refl)
  Rooted-of_comes_back zero visited (some i) e = absurd (ground arith)
  Rooted-of_comes_back (suc fuel) visited (some i) e = elim (Bool-cases (contains visited i)) [
    | inl seen ↦ absurd (ground (arith, comes_back-seen fuel visited i seen))
    | inr new ↦ Rooted-up folders i (
        Rooted-of_comes_back fuel (set_add visited i) (up folders (some i))
          (sym (comes_back-new fuel visited i new) ∙ e))
  ]

  comes_back-empty :
      (visited : List String) (i : String) → comes_back zero folders visited (some i) ≡ none
  unfolding comes_back
  comes_back-empty visited i = refl

  not_back_of_Rooted :
      (fuel : ℕ) (visited : List String) (o : Option String)
      → Rooted folders o
      → Climbed folders visited o
      → comes_back fuel folders visited o ≢ some true
  unfolding ancestor
  not_back_of_Rooted fuel visited none rooted climbed =
      λ e. absurd (ground (arith, comes_back-none fuel visited none refl))
  not_back_of_Rooted zero visited (some i) rooted climbed =
      λ e. absurd (ground (arith, comes_back-empty visited i))
  not_back_of_Rooted (suc fuel) visited (some i) (n, ended) climbed = λ e.
      elim (Bool-cases (contains visited i)) [
        | inl seen ↦ elim (climbed i seen) [
          | inl (k, again) ↦ absurd (ground (arith, rooted_once folders n k (some i) ended again))
          | inr avoids ↦ absurd (avoids zero refl)
        ]
        | inr new ↦
            not_back_of_Rooted fuel (set_add visited i) (up folders (some i))
              (up-Rooted folders (some i) (n, ended)) (climb folders visited i climbed)
              (sym (comes_back-new fuel visited i new) ∙ e)
      ]

  Avoids-up :
      (i j : String) → i ≢ j → Avoids folders j (up folders (some i)) → Avoids folders j (some i)
  unfolding ancestor
  Avoids-up i j other h zero = λ e. other (ground arith)
  Avoids-up i j other h (suc k) = h k

  Avoids-of_comes_back :
      (fuel : ℕ) (visited : List String) (o : Option String)
      → comes_back fuel folders visited o ≡ some false
      → (j : String) → contains visited j ≡ true
      → Avoids folders j o
  unfolding ancestor
  Avoids-of_comes_back fuel visited none e j m k =
      λ met. absurd (ground (arith, ancestor-none folders k))
  Avoids-of_comes_back zero visited (some i) e j m k =
      absurd (ground (arith, comes_back-empty visited i))
  Avoids-of_comes_back (suc fuel) visited (some i) e j m k =
      elim (Bool-cases (contains visited i)) [
        | inl seen ↦ absurd (ground (arith, comes_back-seen fuel visited i seen))
        | inr new ↦
            let ih =
              Avoids-of_comes_back fuel (set_add visited i) (up folders (some i))
                (sym (comes_back-new fuel visited i new) ∙ e) j
                (ground (arith, contains-set_add visited i j)) in
            Avoids-up i j (λ same. absurd (ground (arith, same))) ih k
      ]

  abbrev unseen_all : (visited : List String) → unseen visited < cycle_fuel folders
  unseen_all visited = omega (
    arith,
    length-filter (λ i. not (contains visited i)) (ids folder_item folders),
    length-ids folders,
  )

  -- With the fuel that it is given, the loop ends well exactly when the climb folders comes to an end and
  -- does not meet what it must avoid.
  pub comes_back_iff :
      (visited : List String) (o : Option String)
      → (comes_back (cycle_fuel folders) folders visited o ≡ some false)
        ↔ (Rooted folders o × ((j : String) → contains visited j ≡ true → Avoids folders j o))
  comes_back_iff visited o = (
    λ e. (Rooted-of_comes_back _ visited o e, Avoids-of_comes_back _ visited o e),
    λ (rooted, avoids).
        some_false _ (comes_back-some _ visited o (unseen_all visited))
          (not_back_of_Rooted _ visited o rooted (λ j m. inr (avoids j m))),
  )
    where
      some_false : (o : Option Bool) → o ≢ none → o ≢ some true → o ≡ some false
      some_false none h k = absurd (h refl)
      some_false (some true) h k = absurd (k refl)
      some_false (some false) h k = refl
