-- ===== src/Vault/Collections.antt =====
-- A collection of a vault: its active items and its tombstones, over any kind of item.
use engr_serverless_pm.Base.{
  String, ◌≡◌, refl, ap, ◌∙◌, inl, inr, Bool, false, not, ◌&&◌, some, List, [], ◌∷◌, ◌++◌, arith,
  ◌==◌, eq_iff, Bool-cases, find, filter, contains, Distinct, holds_of_find,
}
use engr_serverless_pm.Vault.{Item, ids, find_id, some_id, without_id, replace_id}

abbrev pub All {ℓ} : {A : Type 0} → (A → Type ℓ) → List A → Type ℓ
All P [] = Unit
All P (x ∷ xs) = P x × All P xs

module _ {A : Type 0} where
  pub All-append {ℓ} : (P : A → Type ℓ) (xs ys : List A) → All P xs → All P ys → All P (xs ++ ys)
  All-append P [] ys h k = k
  All-append P (x ∷ xs) ys (p, h) k = (p, All-append P xs ys h k)

  pub All-filter {ℓ} :
      (P : A → Type ℓ) (p : A → Bool) (xs : List A) → All P xs → All P (filter p xs)
  All-filter P p [] h = tt
  All-filter P p (x ∷ xs) (h, t) = elim (Bool-cases (p x)) [
    | inl e ↦ rw e (h, All-filter P p xs t)
    | inr e ↦ rw e (All-filter P p xs t)
  ]

  pub All-find {ℓ} :
      (P : A → Type ℓ) (p : A → Bool) (xs : List A) (a : A) → All P xs → find p xs ≡ some a → P a
  All-find P p [] a h e = absurd (cc)
  All-find P p (x ∷ xs) a (h, t) e = elim (Bool-cases (p x)) [
    | inl y ↦ let same : x ≡ a = ground arith in rw (← same) h
    | inr n ↦ All-find P p xs a t (ground arith)
  ]

  pub All-map {ℓ κ} :
      (P : A → Type ℓ) (Q : A → Type κ) (f : (a : A) → P a → Q a) (xs : List A)
      → All P xs
      → All Q xs
  All-map P Q f [] h = tt
  All-map P Q f (x ∷ xs) (h, t) = (f x h, All-map P Q f xs t)

module _ {A : Type 0} (item : Item A) where
  pub contains-ids : (xs : List A) (i : String) → contains (ids item xs) i ≡ some_id item i xs
  contains-ids [] i = refl
  contains-ids (x ∷ xs) i = ground (arith, contains-ids xs i)

  pub ids-append : (xs ys : List A) → ids item (xs ++ ys) ≡ ids item xs ++ ids item ys
  ids-append [] ys = refl
  ids-append (x ∷ xs) ys = ap (◌∷◌ (item.id x)) (ids-append xs ys)

  -- A filter by a test on identifiers keeps those that pass.
  pub contains-filter :
      (p : String → Bool) (xs : List A) (j : String)
      → contains (ids item (filter (λ a. p (item.id a)) xs)) j ≡ (contains (ids item xs) j && p j)
  contains-filter p [] j = refl
  contains-filter p (x ∷ xs) j = elim (Bool-cases (p (item.id x))) [
    | inl e ↦ rw e (ground (arith, contains-filter p xs j, eq_iff (item.id x) j, e))
    | inr e ↦ rw e (contains-filter p xs j ∙ ground (arith, eq_iff (item.id x) j, e))
  ]

  pub filter-Distinct :
      (p : String → Bool) (xs : List A)
      → Distinct (ids item xs)
      → Distinct (ids item (filter (λ a. p (item.id a)) xs))
  filter-Distinct p [] d = tt
  filter-Distinct p (x ∷ xs) (new, d) = elim (Bool-cases (p (item.id x))) [
    | inl e ↦ rw e (contains-filter p xs (item.id x) ∙ ground arith, filter-Distinct p xs d)
    | inr e ↦ rw e (filter-Distinct p xs d)
  ]

  pub contains-without :
      (i : String) (xs : List A) (j : String)
      → contains (ids item (without_id item i xs)) j ≡ (contains (ids item xs) j && not (j == i))
  contains-without i = contains-filter (λ j. not (j == i))

  pub without-Distinct :
      (i : String) (xs : List A)
      → Distinct (ids item xs)
      → Distinct (ids item (without_id item i xs))
  without-Distinct i = filter-Distinct (λ j. not (j == i))

  pub without_absent :
      (i : String) (xs : List A) → some_id item i xs ≡ false → without_id item i xs ≡ xs
  without_absent i [] e = refl
  without_absent i (x ∷ xs) e = ground (arith, without_absent i xs)

  pub ids-replace :
      (i : String) (b : A) (xs : List A)
      → item.id b ≡ i
      → ids item (replace_id item i b xs) ≡ ids item xs
  unfolding replace_id
  ids-replace i b [] e = refl
  ids-replace i b (x ∷ xs) e = ground (arith, ids-replace i b xs e, eq_iff (item.id x) i)

  pub All-replace {ℓ} :
      (P : A → Type ℓ) (i : String) (b : A) (xs : List A)
      → All P xs
      → P b
      → All P (replace_id item i b xs)
  unfolding replace_id
  All-replace P i b [] h p = tt
  All-replace P i b (x ∷ xs) (h, t) p = elim (Bool-cases (item.id x == i)) [
    | inl e ↦ rw e (p, t)
    | inr e ↦ rw e (h, All-replace P i b xs t p)
  ]

  pub id_of_find : (i : String) (xs : List A) (a : A) → find_id item i xs ≡ some a → item.id a ≡ i
  id_of_find i xs a e = (eq_iff (item.id a) i).0 (holds_of_find (λ b. item.id b == i) xs a e)
