-- ===== src/Sync/Resolution/Total.antt =====
-- What is resolved over a sound collection is always built.
use engr_serverless_pm.Base.{
  String, ◌≡◌, refl, sym, ◌∙◌, inl, inr, Option, none, some, List, [], ◌∷◌, ok, Error, Map, map_get,
  arith, Option-cases, find-eq-none_of_any, any_of_find, ◌==◌,
}
use engr_serverless_pm.Versioning.{VersionVector}
use engr_serverless_pm.Vault.{Deleted, deleted_item}
use engr_serverless_pm.Vault.Collections.{contains-ids}
use engr_serverless_pm.Vault.Sound.{IsSound}
use engr_serverless_pm.Sync.{Reviewable, Kind}
use engr_serverless_pm.Sync.Review.{state_of, find_state}
use engr_serverless_pm.Sync.Resolution.{
  held_twice, get_state, state_or_local, push_state, build_from,
}

module _ {A : Type 0} (kind : Kind A) (v : VersionVector) (local : List A)
    (local_deleted : List Deleted) (sound : IsSound kind.item v local local_deleted) where
  state_of-ok :
      (both : Error) (a : Option A) (t : Option Deleted)
      → ((x : A) → a ≡ some x → t ≡ none)
      → (s : Reviewable A) × (state_of both a t ≡ ok s)
  state_of-ok both none none h = (_, refl)
  state_of-ok both (some a) none h = (_, refl)
  state_of-ok both none (some t) h = (_, refl)
  state_of-ok both (some a) (some t) h = absurd (ground (arith, h a refl))

  -- An identifier of a sound collection has one state.
  pub find_state-ok :
      (both : String → Error) (i : String)
      → (s : Reviewable A) × (find_state kind.item both local local_deleted i ≡ ok s)
  unfolding find_state
  find_state-ok both i = state_of-ok (both i) _ _ λ x found.
      find-eq-none_of_any (λ t. t.id == i) local_deleted
        (sym (contains-ids deleted_item local_deleted i)
          ∙ sound.separate.apart i
              (contains-ids kind.item local i ∙ any_of_find (λ a. kind.id a == i) local x found))

  pub build_from-ok :
      (resolved : Map (Reviewable A)) (is : List String)
      → (built : List A × List Deleted) × (build_from kind local local_deleted resolved is
          ≡ ok built)
  unfolding build_from get_state
  build_from-ok resolved [] = (([], []), refl)
  build_from-ok resolved (i ∷ is) =
      let (rest, more) = build_from-ok resolved is in
      elim (Option-cases (map_get resolved i)) [
        | inl untouched ↦
            let (s, here) = find_state-ok held_twice i in
            (push_state s rest, rw (untouched, state_or_local, here, more) refl)
        | inr (s, there) ↦ (push_state s rest, rw (there, state_or_local, more) refl)
      ]
