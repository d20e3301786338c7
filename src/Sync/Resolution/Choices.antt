-- ===== src/Sync/Resolution/Choices.antt =====
-- Which choices make a map: `createEntryResolutionMap` of
-- packages/core/src/domain/sync/entry-resolution.utils.ts and its like.
use engr_serverless_pm.Base.{
  String, ◌≡◌, refl, fun_ext, ◌∙◌, ◌≢◌, inl, inr, Bool, true, false, Option, none, some, List, [],
  ◌∷◌, ok, >>=-eq-ok, Map, map_get, map_set, map_has, map_get-set, arith, if◌then◌else◌, ◌==◌,
  eq_iff, Bool-cases, any, find, find-eq-none_of_any,
}
use engr_serverless_pm.Sync.{
  VaultSyncReviewAction, use_local, use_remote, unsupported, ReviewResolution,
}
use engr_serverless_pm.Sync.Resolution.{
  assert_supported_action, create_resolution_map_from, create_resolution_map,
}

abbrev pub find_resolution : String → List ReviewResolution → Option ReviewResolution
find_resolution i = find (λ r. r.id == i)

abbrev pub resolves : String → List ReviewResolution → Bool
resolves i = any (λ r. r.id == i)

-- The choices name no item twice, and each is one of the two actions.
abbrev pub IsWellFormed : List ReviewResolution → Type 0
IsWellFormed [] = Unit {0}
IsWellFormed (r ∷ rs) = (r.action ≢ unsupported) × (resolves r.id rs ≡ false) × IsWellFormed rs

abbrev or_else : {A : Type 0} → Option A → Option A → Option A
or_else none o = o
or_else (some a) o = some a

-- What a map made from some choices and an older map holds.
pub record IsMadeFrom (m : Map ReviewResolution) (rs : List ReviewResolution)
    (m' : Map ReviewResolution) : Type 0 where
  pub formed : IsWellFormed rs
  pub fresh : (i : String) → map_has m i ≡ true → resolves i rs ≡ false
  pub reads : (i : String) → map_get m' i ≡ or_else (find_resolution i rs) (map_get m i)

supported_of_ok :
    (a : VaultSyncReviewAction) (u : Unit {0}) → assert_supported_action a ≡ ok u → a ≢ unsupported
unfolding assert_supported_action
supported_of_ok use_local u e = λ h. cc
supported_of_ok use_remote u e = λ h. cc
supported_of_ok unsupported u e = absurd (ground arith)

ok_of_supported : (a : VaultSyncReviewAction) → a ≢ unsupported → assert_supported_action a ≡ ok tt
unfolding assert_supported_action
ok_of_supported use_local h = refl
ok_of_supported use_remote h = refl
ok_of_supported unsupported h = absurd (h refl)

has-set :
    (m : Map ReviewResolution) (i : String) (r : ReviewResolution) (j : String)
    → map_has (map_set m i r) j ≡ (if i == j then true else map_has m j)
unfolding map_has
has-set m i r j = ground (arith, map_get-set m i r j)

has_false : (m : Map ReviewResolution) (i : String) → map_has m i ≡ false → map_get m i ≡ none
unfolding map_has
has_false m i h = ground arith

pub create-IsMadeFrom :
    (m : Map ReviewResolution) (rs : List ReviewResolution) (m' : Map ReviewResolution)
    → create_resolution_map_from m rs ≡ ok m'
    → IsMadeFrom m rs m'
unfolding create_resolution_map_from
create-IsMadeFrom m [] m' e = record { formed = tt; fresh = λ i h. refl; reads = λ i. ground arith }
create-IsMadeFrom m (r ∷ rs) m' e =
    let (u, passed, e₁) = >>=-eq-ok (assert_supported_action r.action) _ e in
    elim (Bool-cases (map_has m r.id)) [
      | inl known ↦ absurd (ground arith)
      | inr new ↦
          let ih = create-IsMadeFrom (map_set m r.id r) rs m' (ground arith) in
          let unnamed : resolves r.id rs ≡ false =
            ih.fresh r.id (ground (arith, has-set m r.id r r.id, eq_iff r.id r.id)) in
          record {
            formed = (supported_of_ok r.action u passed, unnamed, ih.formed);
            fresh = λ i h. ground (arith, ih.fresh i, has-set m r.id r i, eq_iff r.id i);
            reads = λ i. elim (Bool-cases (r.id == i)) [
              | inl same ↦
                  ih.reads i
                  ∙ rw same (
                      ground (
                        arith,
                        map_get-set m r.id r i,
                        find-eq-none_of_any (λ q. q.id == i) rs
                            (rw ((eq_iff r.id i).0 same) at unnamed),
                      ))
              | inr other ↦ ih.reads i ∙ ground (arith, map_get-set m r.id r i)
            ];
          }
    ]

pub create_of_IsWellFormed :
    (m : Map ReviewResolution) (rs : List ReviewResolution)
    → IsWellFormed rs
    → ((i : String) → map_has m i ≡ true → resolves i rs ≡ false)
    → (m' : Map ReviewResolution) × (create_resolution_map_from m rs ≡ ok m')
unfolding create_resolution_map_from
create_of_IsWellFormed m [] formed fresh = (m, refl)
create_of_IsWellFormed m (r ∷ rs) (supported, once, formed) fresh =
    let absent : map_has m r.id ≡ false = elim (Bool-cases (map_has m r.id)) [
      | inl known ↦ absurd (ground (arith, fresh r.id known, eq_iff r.id r.id))
      | inr new ↦ new
    ] in
    let (m', made) = create_of_IsWellFormed (map_set m r.id r) rs formed (λ i h.
      elim (Bool-cases (r.id == i)) [
        | inl same ↦ rw (← (eq_iff r.id i).0 same) once
        | inr other ↦ ground (arith, fresh i, has-set m r.id r i)
      ]) in
    (m', rw (ok_of_supported r.action supported, absent) made)

pub read-create :
    (rs : List ReviewResolution) (by_id : Map ReviewResolution)
    → create_resolution_map rs ≡ ok by_id
    → map_get by_id ≡ (λ i. find_resolution i rs)
unfolding create_resolution_map map_get
read-create rs by_id e =
    fun_ext (λ i. (create-IsMadeFrom [] rs by_id e).reads i ∙ drop_none (find_resolution i rs))
  where
    drop_none : (o : Option ReviewResolution) → or_else o none ≡ o
    drop_none none = refl
    drop_none (some r) = refl
