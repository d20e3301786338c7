-- ===== src/Base/Ids.antt =====
-- Lists of identifiers, and the `Set` of strings in insertion order.
use Prim.Native.String.{String}
use mathlib.Core.Path.{◌≡◌, refl, ◌∙◌}
use mathlib.Core.Logic.{inl, inr}
use mathlib.Core.Bool.{Bool, true, false, ◌&&◌, ◌||◌}
use mathlib.Core.List.{List, [], ◌∷◌, ◌++◌}
use native.Mathlib.Omega.{arith}
use text.Mathlib.Text.{◌==◌}
use text.Mathlib.TextEquality.{eq_iff}
use engr_serverless_pm.Base.Tests.{if◌then◌else◌, Bool-cases}
use engr_serverless_pm.Base.Lists.{any, any-append, filter}

abbrev pub contains : List String → String → Bool
contains xs x = any (λ y. y == x) xs

abbrev pub set_add : List String → String → List String
set_add s x = if contains s x then s else s ++ x ∷ []

-- `new Set([...s, ...xs])`.
unfoldable pub set_from : List String → List String → List String
set_from s [] = s
set_from s (x ∷ xs) = set_from (set_add s x) xs

unfoldable pub set_of : List String → List String
unfolding set_from
set_of xs = set_from [] xs

-- No identifier occurs twice.
abbrev pub Distinct : List String → Type 0
Distinct [] = Unit {0}
Distinct (x ∷ xs) = (contains xs x ≡ false) × Distinct xs

pub contains-append :
    (xs ys : List String) (x : String) → contains (xs ++ ys) x ≡ (contains xs x || contains ys x)
contains-append xs ys x = any-append (λ y. y == x) xs ys

pub contains-set_add :
    (s : List String) (y x : String) → contains (set_add s y) x ≡ (contains s x || (y == x))
contains-set_add s y x = elim (Bool-cases (contains s y)) [
  | inl old ↦ rw old (ground (arith, eq_iff y x, old))
  | inr new ↦ rw (new, contains-append s (y ∷ []) x) (ground arith)
]

contains-set_from :
    (s xs : List String) (x : String) → contains (set_from s xs) x ≡ (contains s x || contains xs x)
unfolding set_from
contains-set_from s [] x = ground arith
contains-set_from s (y ∷ xs) x =
    contains-set_from (set_add s y) xs x ∙ ground (arith, contains-set_add s y x)

-- A set has the members of the list that it is made from.
pub contains-set_of : (xs : List String) (x : String) → contains (set_of xs) x ≡ contains xs x
unfolding set_of
contains-set_of xs x = contains-set_from [] xs x

pub contains-filter :
    (p : String → Bool) (xs : List String) (x : String)
    → contains (filter p xs) x ≡ (contains xs x && p x)
contains-filter p [] x = refl
contains-filter p (y ∷ xs) x = elim (Bool-cases (y == x)) [
  | inl this ↦ rw ((eq_iff y x).0 this) (ground (arith, contains-filter p xs x))
  | inr other ↦ ground (arith, contains-filter p xs x)
]

pub any_of_contains :
    (p : String → Bool) (xs : List String) (x : String)
    → contains xs x ≡ true
    → p x ≡ true
    → any p xs ≡ true
any_of_contains p [] x h k = cc
any_of_contains p (y ∷ xs) x h k = elim (Bool-cases (y == x)) [
  | inl e ↦ rw ((eq_iff y x).0 e, k)
  | inr e ↦ ground (arith, any_of_contains p xs x)
]

pub contains_of_any :
    (p : String → Bool) (xs : List String)
    → any p xs ≡ true
    → (x : String) × (contains xs x ≡ true) × (p x ≡ true)
contains_of_any p [] h = absurd (cc)
contains_of_any p (y ∷ xs) h = elim (Bool-cases (p y)) [
  | inl e ↦ (y, ground (arith, eq_iff y y), e)
  | inr e ↦ let (x, m, k) = contains_of_any p xs (ground arith) in (x, ground arith, k)
]

pub Distinct-append_one :
    (s : List String) (x : String) → Distinct s → contains s x ≡ false → Distinct (s ++ x ∷ [])
Distinct-append_one [] x d h = (refl, tt)
Distinct-append_one (y ∷ s) x (new, d) h = (
  contains-append s (x ∷ []) y ∙ ground (arith, eq_iff x y, eq_iff y x),
  Distinct-append_one s x d (ground arith),
)

pub Distinct-append :
    (xs ys : List String)
    → Distinct xs
    → Distinct ys
    → ((i : String) → contains xs i ≡ true → contains ys i ≡ false)
    → Distinct (xs ++ ys)
Distinct-append [] ys d e h = e
Distinct-append (x ∷ xs) ys (new, d) e h = (
  contains-append xs ys x ∙ ground (arith, new, h x, eq_iff x x),
  Distinct-append xs ys d e (λ i m. h i (ground arith)),
)

set_from-Distinct : (s xs : List String) → Distinct s → Distinct (set_from s xs)
unfolding set_from
set_from-Distinct s [] d = d
set_from-Distinct s (x ∷ xs) d =
    set_from-Distinct (set_add s x) xs (elim (Bool-cases (contains s x)) [
      | inl old ↦ rw old d
      | inr new ↦ rw new (Distinct-append_one s x d new)
    ])

pub set_of-Distinct : (xs : List String) → Distinct (set_of xs)
unfolding set_of
set_of-Distinct xs = set_from-Distinct [] xs tt
