-- ===== src/Vault/Organization/Sets.antt =====
-- How the sets of vault-organization-reference.policy.ts find repetitions.
use engr_serverless_pm.Base.{
  suc, ◌+◌, ◌≤◌, String, ◌≡◌, refl, ap, ◌∙◌, ◌↔◌, inl, inr, true, false, List, [], ◌∷◌, ◌++◌, arith,
  eq_iff, Bool-cases, length, contains, set_add, contains-set_add, set_from, set_of, Distinct,
}
use engr_serverless_pm.Vault.Organization.{repeats}

-- Each identifier is new to a set that the ones before it joined.
abbrev pub Extends : List String → List String → Type 0
Extends seen [] = Unit {0}
Extends seen (x ∷ xs) = (contains seen x ≡ false) × Extends (set_add seen x) xs

Extends-iff :
    (seen xs : List String)
    → Extends seen xs
      ↔ (Distinct xs × ((i : String) → contains seen i ≡ true → contains xs i ≡ false))
Extends-iff seen [] = (λ h. (tt, λ i m. refl), λ h. tt)
Extends-iff seen (x ∷ xs) =
    let (to, from) = Extends-iff (set_add seen x) xs in
    (
      λ (new, h).
          let (d, apart) = to h in
          (
            (apart x (ground (arith, contains-set_add seen x x, eq_iff x x)), d),
            λ i m. ground (arith, new, m, apart i, contains-set_add seen x i, eq_iff x i),
          ),
      λ ((once, d), apart). (
        elim (Bool-cases (contains seen x)) [
          | inl old ↦ absurd (ground (arith, apart x old, eq_iff x x))
          | inr new ↦ new
        ],
        from (d, λ i m. ground (arith, once, apart i, contains-set_add seen x i, eq_iff x i)),
      ),
    )

-- From the empty set, nothing occurs twice.
pub Extends-empty_iff : (xs : List String) → Extends [] xs ↔ Distinct xs
Extends-empty_iff xs =
    (λ h. ((Extends-iff [] xs).0 h).0, λ d. (Extends-iff [] xs).1 (d, λ i m. absurd (ground arith)))

length-append_one : (s : List String) (x : String) → length (s ++ x ∷ []) ≡ suc (length s)
length-append_one [] x = refl
length-append_one (y ∷ s) x = ap suc (length-append_one s x)

length-set_from : (s xs : List String) → length (set_from s xs) ≤ length s + length xs
unfolding set_from
length-set_from s [] = omega arith
length-set_from s (x ∷ xs) = ground (arith, length-set_from (set_add s x) xs, length-append_one s x)

length-set_from_iff :
    (s xs : List String) → (length (set_from s xs) ≡ length s + length xs) ↔ Extends s xs
unfolding set_from
length-set_from_iff s [] = (λ e. tt, λ h. omega arith)
length-set_from_iff s (x ∷ xs) = elim (Bool-cases (contains s x)) [
  | inl old ↦
      rw old
        (λ e. absurd (omega (arith, length-set_from s xs, e)), λ h. absurd (ground (arith, h.0)))
  | inr new ↦
      let (to, from) = length-set_from_iff (s ++ x ∷ []) xs in
      rw new (
        λ e. (refl, to (e ∙ omega (arith, length-append_one s x))),
        λ h. from h.1 ∙ omega (arith, length-append_one s x),
      )
]

-- A set is as long as the list that it is made from exactly when nothing occurs twice.
pub repeats_iff : (xs : List String) → (repeats xs ≡ false) ↔ Distinct xs
unfolding set_of
repeats_iff xs =
    let (to, from) = length-set_from_iff [] xs in
    let (distinct, extends) = Extends-empty_iff xs in
    (λ e. distinct (to (ground arith)), λ d. let same = from (extends d) in ground (arith, same))
