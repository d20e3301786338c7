-- ===== src/Sync/Resolution/Fit.antt =====
-- The states that a review finds and a resolution stamps fit the vault that is built of them.
use engr_serverless_pm.Base.{
  String, ◌≡◌, refl, ◌∙◌, inl, inr, true, Option, none, some, List, [], ◌∷◌, Result, ok, Error, Map,
  map_get, arith, ◌==◌, eq_iff, Bool-cases, Option-cases, contains,
}
use engr_serverless_pm.Versioning.{
  VersionVector, get, increment_version_vector, merge_version_vectors,
}
use engr_serverless_pm.Versioning.Order.{AtMost}
use engr_serverless_pm.Versioning.Vectors.{get-merge}
use engr_serverless_pm.Versioning.Bounds.{AtMost-increment, increment-AtMost}
use engr_serverless_pm.Vault.{Deleted, deleted_item}
use engr_serverless_pm.Vault.Collections.{All, id_of_find}
use engr_serverless_pm.Vault.Sound.{IsSound}
use engr_serverless_pm.Vault.Validity.{find_covered}
use engr_serverless_pm.Sync.{
  Reviewable, present, deleted, missing, ReviewItem, ReviewResolution, Kind, get_version_vector,
}
use engr_serverless_pm.Sync.Relation.{version_of}
use engr_serverless_pm.Sync.Review.{state_of, find_state}
use engr_serverless_pm.Sync.Review.Complete.{row_ids, IsFaithful}
use engr_serverless_pm.Sync.Resolution.{
  held_twice, stamp_resolved_version_vector, stamp_state, get_state, state_or_local, is_use_local,
}
use engr_serverless_pm.Sync.Resolution.Choices.{find_resolution}
use engr_serverless_pm.Sync.Resolution.Resolved.{IsResolved, Resolves}
use engr_serverless_pm.Sync.Resolution.Built.{Fits}

module _ {A : Type 0} (kind : Kind A) where
  state_of-Fits :
      (v : VersionVector) (i : String) (both : Error) (a : Option A) (t : Option Deleted)
      (s : Reviewable A)
      → ((x : A) → a ≡ some x → Fits kind v i (present x))
      → ((x : Deleted) → t ≡ some x → Fits kind v i (deleted x))
      → state_of both a t ≡ ok s
      → Fits kind v i s
  state_of-Fits v i both none none s h k e = let same : missing ≡ s = ground arith in rw (← same) tt
  state_of-Fits v i both (some x) none s h k e =
      let same : present x ≡ s = ground arith in rw (← same) (h x refl)
  state_of-Fits v i both none (some x) s h k e =
      let same : deleted x ≡ s = ground arith in rw (← same) (k x refl)
  state_of-Fits v i both (some x) (some y) s h k e = absurd (ground arith)

  -- A state found in a sound collection has its identifier and is covered.
  pub find_state-Fits :
      (v : VersionVector) (active : List A) (tombstones : List Deleted) (both : String → Error)
      (i : String) (s : Reviewable A)
      → IsSound kind.item v active tombstones
      → find_state kind.item both active tombstones i ≡ ok s
      → Fits kind v i s
  unfolding find_state
  find_state-Fits v active tombstones both i s sound e =
      state_of-Fits v i (both i) _ _ s
        (λ x found. (
          id_of_find kind.item i active x found,
          find_covered kind.item v active i x sound.active_covered found,
        ))
        (λ x found. (
          id_of_find deleted_item i tombstones x found,
          find_covered deleted_item v tombstones i x sound.deleted_covered found,
        ))
        e

  Fits-AtMost :
      (v : VersionVector) (i : String) (s : Reviewable A)
      → Fits kind v i s
      → AtMost (version_of kind s) v
  unfolding get_version_vector get
  Fits-AtMost v i (present a) f = f.1
  Fits-AtMost v i (deleted t) f = f.1
  Fits-AtMost v i missing f = λ d. omega arith

  pub Fits-grow :
      (v w : VersionVector) (i : String) (s : Reviewable A)
      → AtMost v w
      → Fits kind v i s
      → Fits kind w i s
  Fits-grow v w i (present a) h (own, f) = (own, λ d. omega (arith, f d, h d))
  Fits-grow v w i (deleted t) h (own, f) = (own, λ d. omega (arith, f d, h d))
  Fits-grow v w i missing h f = tt

  module _ (v w : VersionVector) (d : String) where
    abbrev pub agreed : VersionVector
    agreed = increment_version_vector (merge_version_vectors v w) d

    stamp-AtMost :
        (i : String) (l r : Reviewable A)
        → Fits kind v i l
        → Fits kind w i r
        → AtMost
            (stamp_resolved_version_vector
              (get_version_vector kind l)
              (get_version_vector kind r)
              d)
            agreed
    unfolding stamp_resolved_version_vector
    stamp-AtMost i l r f g = increment-AtMost _ _ d λ x. omega (
      arith,
      get-merge (version_of kind l) (version_of kind r) x,
      get-merge v w x,
      Fits-AtMost v i l f x,
      Fits-AtMost w i r g x,
    )

    pub stamp_state-Fits :
        (i : String) (u : VersionVector) (s l r : Reviewable A)
        → Fits kind u i s
        → Fits kind v i l
        → Fits kind w i r
        → Fits kind agreed i (stamp_state kind s l r d)
    unfolding stamp_state
    stamp_state-Fits i u missing l r own f g = tt
    stamp_state-Fits i u (deleted t) l r (own, _) f g = (own, stamp-AtMost i l r f g)
    stamp_state-Fits i u (present a) l r (own, _) f g = (
      kind.id-with_version a _ ∙ own,
      rw (kind.version-with_version a _) (stamp-AtMost i l r f g),
    )

-- A row is looked up by its identifier.
row_at :
    {A : Type 0} (P : ReviewItem A → Type 0) (rows : List (ReviewItem A)) (i : String)
    → contains (row_ids rows) i ≡ true
    → All P rows
    → (row : ReviewItem A) × (row.id ≡ i) × P row
row_at P [] i m h = absurd (cc)
row_at P (row ∷ rows) i m (p, h) = elim (Bool-cases (row.id == i)) [
  | inl same ↦ (row, (eq_iff row.id i).0 same, p)
  | inr other ↦ row_at P rows i (ground arith) h
]

All-both :
    {A : Type 0} (P Q : A → Type 0) (xs : List A) → All P xs → All Q xs → All (λ a. P a × Q a) xs
All-both P Q [] h k = tt
All-both P Q (x ∷ xs) (p, h) (q, k) = ((p, q), All-both P Q xs h k)

module _ {A : Type 0} (kind : Kind A) (v w : VersionVector) (d : String)
    (find_local find_remote : String → Result (Reviewable A))
    (local_Fits : (i : String) (s : Reviewable A) → find_local i ≡ ok s → Fits kind v i s)
    (remote_Fits : (i : String) (s : Reviewable A) → find_remote i ≡ ok s → Fits kind w i s) where
  row-Fits :
      (choice : String → Option ReviewResolution) (resolved : Map (Reviewable A))
      (row : ReviewItem A)
      → IsFaithful kind find_local find_remote row
      → IsResolved kind d choice resolved row
      → (s : Reviewable A) × (map_get resolved row.id ≡ some s)
        × Fits kind (agreed kind v w d) row.id s
  row-Fits choice resolved row f ((r, picked, permitted), reads) =
      let l = local_Fits row.id row.local f.local_state in
      let g = remote_Fits row.id row.remote f.remote_state in
      (
        _,
        reads,
        elim (Bool-cases (is_use_local r.action)) [
          | inl e ↦ rw e (stamp_state-Fits kind v w d row.id v row.local row.local row.remote l l g)
          | inr e ↦
              rw e (stamp_state-Fits kind v w d row.id w row.remote row.local row.remote g l g)
        ],
      )

  -- Each state that goes into the built vault fits it, resolved or left as it was.
  pub state-Fits :
      (local : List A) (local_deleted : List Deleted) (rows : List (ReviewItem A))
      (rs : List ReviewResolution) (resolved : Map (Reviewable A))
      → IsSound kind.item v local local_deleted
      → All (IsFaithful kind find_local find_remote) rows
      → Resolves kind d rows rs resolved
      → (i : String) (s : Reviewable A) → state_or_local kind local local_deleted resolved i ≡ ok s
      → Fits kind (agreed kind v w d) i s
  unfolding get_state
  state-Fits local local_deleted rows rs resolved sound faithful done i s e =
      elim (Option-cases (map_get resolved i)) [
        | inl untouched ↦
            Fits-grow kind v (agreed kind v w d) i s
              (λ x.
                omega (arith, get-merge v w x, AtMost-increment (merge_version_vectors v w) d x))
              (find_state-Fits kind v local local_deleted held_twice i s sound
                (rw (untouched, state_or_local) at e))
        | inr (s', there) ↦ elim (Bool-cases (contains (row_ids rows) i)) [
          | inl m ↦
              let (row, own, both) =
                row_at
                  (λ row.
                    IsFaithful kind find_local find_remote row
                    × IsResolved kind d (λ j. find_resolution j rs) resolved row)
                  rows i m (All-both _ _ rows faithful done.reviewed) in
              let (t, reads, fits) =
                row-Fits (λ j. find_resolution j rs) resolved row both.0 both.1 in
              let same : t ≡ s = ground (arith, own) in rw (← same, ← own) fits
          | inr absent ↦ absurd (ground (arith, done.others i absent))
        ]
      ]
