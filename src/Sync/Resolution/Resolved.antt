-- ===== src/Sync/Resolution/Resolved.antt =====
-- When the reviewer's choices are accepted.
use engr_serverless_pm.Base.{
  String, ◌≡◌, refl, ◌∙◌, ◌↔◌, inl, inr, true, false, ◌&&◌, Option, none, some, List, [], ◌∷◌, ok,
  >>=-eq-ok, Map, map_get, map_set, map_has, map_get-set, arith, if◌then◌else◌, ◌==◌, eq_iff,
  Bool-cases, any, contains, Distinct,
}
use engr_serverless_pm.Vault.Collections.{All, All-map}
use engr_serverless_pm.Sync.{Reviewable, ReviewItem, ReviewResolution, Kind}
use engr_serverless_pm.Sync.Review.Complete.{row_ids}
use engr_serverless_pm.Sync.Resolution.{
  create_resolution_map, is_remote_only, is_use_local, require_reviewed, select_state, stamp_state,
  resolution_of, resolve_from, resolve_states,
}
use engr_serverless_pm.Sync.Resolution.Choices.{
  find_resolution, IsWellFormed, create-IsMadeFrom, create_of_IsWellFormed, read-create,
}

module _ {A : Type 0} where
  -- Each choice is about an item under review.
  abbrev pub AreReviewed : List (ReviewItem A) → List ReviewResolution → Type 0
  AreReviewed reviews [] = Unit {0}
  AreReviewed reviews (r ∷ rs) =
      (any (λ review. review.id == r.id) reviews ≡ true) × AreReviewed reviews rs

  require_reviewed_iff :
      (reviews : List (ReviewItem A)) (rs : List ReviewResolution)
      → (require_reviewed reviews rs ≡ ok tt) ↔ AreReviewed reviews rs
  unfolding require_reviewed
  require_reviewed_iff reviews [] = (λ e. tt, λ h. refl)
  require_reviewed_iff reviews (r ∷ rs) =
      let (to, from) = require_reviewed_iff reviews rs in
      elim (Bool-cases (any (λ review. review.id == r.id) reviews)) [
        | inl known ↦ rw known (λ e. (refl, to e), λ h. from h.1)
        | inr other ↦ rw other (λ e. absurd (ground arith), λ h. absurd (ground (arith, h.0)))
      ]

  -- What the reviewer chose for an item.
  abbrev pub chosen : ReviewItem A → ReviewResolution → Reviewable A
  chosen review r = if is_use_local r.action then review.local else review.remote

  -- The item has a choice, and it is not the local absence of an item that only the remote has.
  abbrev pub HasChoice : (String → Option ReviewResolution) → ReviewItem A → Type 0
  HasChoice choice review =
      (r : ReviewResolution) × (choice review.id ≡ some r)
      × ((is_remote_only review.relation && is_use_local r.action) ≡ false)

  module _ (kind : Kind A) (device_id : String) where
    -- The item's choice, stamped by the device, is what was resolved for it.
    abbrev pub IsResolved :
        (String → Option ReviewResolution) → Map (Reviewable A) → ReviewItem A → Type 0
    IsResolved choice resolved review =
        (c : HasChoice choice review) × (map_get resolved review.id
          ≡ some (stamp_state kind (chosen review c.0) review.local review.remote device_id))

    resolve_from-IsResolved :
        (by_id : Map ReviewResolution) (older : Map (Reviewable A)) (reviews : List (ReviewItem A))
        (resolved : Map (Reviewable A))
        → Distinct (row_ids reviews)
        → resolve_from kind by_id device_id older reviews ≡ ok resolved
        → All (IsResolved (map_get by_id) resolved) reviews
          × ((i : String)
              → contains (row_ids reviews) i ≡ false
              → map_get resolved i ≡ map_get older i)
    unfolding resolve_from select_state
    resolve_from-IsResolved by_id older [] resolved d e = (tt, λ i h. ground arith)
    resolve_from-IsResolved by_id older (review ∷ reviews) resolved (new, d) e =
        let (r, found, e₁) = >>=-eq-ok (resolution_of by_id review.id) _ e in
        let (state, selected, e₂) = >>=-eq-ok (select_state review r) _ e₁ in
        let stamped = stamp_state kind state review.local review.remote device_id in
        let (rest, others) =
          resolve_from-IsResolved by_id (map_set older review.id stamped) reviews resolved d e₂ in
        let choice : map_get by_id review.id ≡ some r = ground arith in
        let permitted : (is_remote_only review.relation && is_use_local r.action) ≡ false =
          ground arith in
        let same : state ≡ chosen review r = ground arith in
        (
          (
            (
              (r, choice, permitted),
              others review.id new
                  ∙ ground (
                    arith,
                    map_get-set older review.id stamped review.id,
                    eq_iff review.id review.id,
                    same,
                  ),
            ),
            rest,
          ),
          λ i h. others i (ground arith) ∙ ground (arith, map_get-set older review.id stamped i),
        )

    resolve_of_HasChoice :
        (by_id : Map ReviewResolution) (older : Map (Reviewable A)) (reviews : List (ReviewItem A))
        → All (HasChoice (map_get by_id)) reviews
        → (resolved : Map (Reviewable A)) × (resolve_from kind by_id device_id older reviews
            ≡ ok resolved)
    unfolding resolve_from select_state
    resolve_of_HasChoice by_id older [] h = (older, refl)
    resolve_of_HasChoice by_id older (review ∷ reviews) ((r, found, permitted), h) =
        let stamped = stamp_state kind (chosen review r) review.local review.remote device_id in
        let (resolved, made) =
          resolve_of_HasChoice by_id (map_set older review.id stamped) reviews h in
        (resolved, ground (arith, made))

-- The choices are well-formed, each is about an item under review, and each item under review has
-- one that it permits.
pub record Accepts {A : Type 0} (reviews : List (ReviewItem A)) (rs : List ReviewResolution)
    : Type 0 where
  pub formed : IsWellFormed rs
  pub reviewed : AreReviewed reviews rs
  pub complete : All (HasChoice (λ i. find_resolution i rs)) reviews

module _ {A : Type 0} (kind : Kind A) (device_id : String) where
  -- What an accepted resolution made of each item under review, and of no other.
  pub record Resolves (reviews : List (ReviewItem A)) (rs : List ReviewResolution)
      (resolved : Map (Reviewable A)) : Type 0 where
    pub accepts : Accepts reviews rs
    pub reviewed : All (IsResolved kind device_id (λ i. find_resolution i rs) resolved) reviews
    pub others : (i : String) → contains (row_ids reviews) i ≡ false → map_get resolved i ≡ none

  choices_of :
      (choice : String → Option ReviewResolution) (resolved : Map (Reviewable A))
      (reviews : List (ReviewItem A))
      → All (IsResolved kind device_id choice resolved) reviews
      → All (HasChoice choice) reviews
  choices_of choice resolved reviews = All-map _ _ (λ review c. c.0) reviews

  -- Choices that are resolved for distinct rows are those that the rows need, and each row's item
  -- gets the state chosen for it, stamped by the device; no other item gets a state.
  pub resolve_states-Resolves :
      (reviews : List (ReviewItem A)) (rs : List ReviewResolution) (resolved : Map (Reviewable A))
      → Distinct (row_ids reviews)
      → resolve_states kind reviews rs device_id ≡ ok resolved
      → Resolves reviews rs resolved
  unfolding resolve_states create_resolution_map map_get
  resolve_states-Resolves reviews rs resolved d e =
      let (by_id, made, e₁) = >>=-eq-ok (create_resolution_map rs) _ e in
      let (u, known, e₂) = >>=-eq-ok (require_reviewed reviews rs) _ e₁ in
      let (done, others) = resolve_from-IsResolved kind device_id by_id [] reviews resolved d e₂ in
      let done' = rw (read-create rs by_id made) at done in
      record {
        accepts = record {
          formed = (create-IsMadeFrom [] rs by_id made).formed;
          reviewed = (require_reviewed_iff reviews rs).0 known;
          complete = choices_of _ resolved reviews done';
        };
        reviewed = done';
        others = others;
      }

  -- The choices that the rows need are resolved without an error.
  pub resolve_states_of_Accepts :
      (reviews : List (ReviewItem A)) (rs : List ReviewResolution)
      → Accepts reviews rs
      → (resolved : Map (Reviewable A)) × (resolve_states kind reviews rs device_id ≡ ok resolved)
  unfolding resolve_states create_resolution_map map_has map_get
  resolve_states_of_Accepts reviews rs a =
      let (by_id, made) = create_of_IsWellFormed [] rs a.formed (λ i h. absurd (cc)) in
      let (resolved, done) =
        resolve_of_HasChoice kind device_id by_id [] reviews
          (rw (read-create rs by_id made) a.complete) in
      (
        resolved,
        rw (made, create_resolution_map, (require_reviewed_iff reviews rs).1 a.reviewed) done,
      )
