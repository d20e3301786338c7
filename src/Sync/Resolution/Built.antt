-- ===== src/Sync/Resolution/Built.antt =====
-- What the vault holds once the resolved states are in place.
use engr_serverless_pm.Base.{
  ◌<◌, String, ◌≡◌, refl, sym, ◌∙◌, ◌≢◌, inl, inr, true, false, List, [], ◌∷◌, Result, ok,
  >>=-eq-ok, Map, arith, ◌==◌, eq_iff, Bool-cases, find-eq-none_of_any, contains, Distinct, Error,
}
use engr_serverless_pm.Versioning.{
  VersionVector, VersionVectorRelation, get, max_count, increment_version_vector,
  merge_version_vectors, compare_version_vectors,
}
use engr_serverless_pm.Versioning.Order.{AtMost}
use engr_serverless_pm.Versioning.Bounds.{stamp-ahead}
use engr_serverless_pm.Vault.{Deleted, deleted_item, some_id}
use engr_serverless_pm.Vault.Collections.{contains-ids}
use engr_serverless_pm.Vault.Sound.{IsSound}
use engr_serverless_pm.Sync.{Reviewable, present, deleted, missing, Kind, get_version_vector}
use engr_serverless_pm.Sync.Relation.{version_of}
use engr_serverless_pm.Sync.Review.{find_state}
use engr_serverless_pm.Sync.Resolution.{
  stamp_resolved_version_vector, stamp_state, state_or_local, push_state, build_from,
}

module _ {A : Type 0} (kind : Kind A) where
  -- A state that is there has the identifier `i`, and no count that `v` does not have.
  abbrev pub Fits : VersionVector → String → Reviewable A → Type 0
  Fits v i (present a) = (kind.id a ≡ i) × AtMost (kind.version a) v
  Fits v i (deleted t) = (t.id ≡ i) × AtMost t.version_vector v
  Fits v i missing = Unit

  stamped_version :
      (s l r : Reviewable A) (d : String)
      → s ≢ missing
      → version_of kind (stamp_state kind s l r d)
        ≡ increment_version_vector (merge_version_vectors (version_of kind l) (version_of kind r)) d
  unfolding stamp_state stamp_resolved_version_vector get_version_vector
  stamped_version missing l r d h = absurd (h refl)
  stamped_version (present a) l r d h = kind.version-with_version a _
  stamped_version (deleted t) l r d h = refl

  -- What a device with room stamps is ahead of the local state and of the remote one.
  pub stamp_state-ahead :
      (s l r : Reviewable A) (d : String)
      → s ≢ missing
      → get (version_of kind l) d < max_count
      → get (version_of kind r) d < max_count
      → (compare_version_vectors (version_of kind (stamp_state kind s l r d)) (version_of kind l)
          ≡ VersionVectorRelation.local_ahead)
        × (compare_version_vectors (version_of kind (stamp_state kind s l r d)) (version_of kind r)
            ≡ VersionVectorRelation.local_ahead)
  stamp_state-ahead s l r d h m n =
      rw (stamped_version s l r d h) (stamp-ahead (version_of kind l) (version_of kind r) d m n)

  -- The lists hold what `state` says of each identifier of `is`, and nothing else.
  pub record Holds (v : VersionVector) (state : String → Result (Reviewable A)) (is : List String)
      (active : List A) (tombstones : List Deleted) : Type 0 where
    pub sound : IsSound kind.item v active tombstones
    pub active_listed : (i : String) → some_id kind.item i active ≡ true → contains is i ≡ true
    pub deleted_listed :
        (i : String) → some_id deleted_item i tombstones ≡ true → contains is i ≡ true
    pub found :
        (both : String → Error) (i : String)
        → contains is i ≡ true
        → find_state kind.item both active tombstones i ≡ state i

  module _ (v : VersionVector) (state : String → Result (Reviewable A)) where
    module _ (i : String) (is : List String) (active : List A) (tombstones : List Deleted)
        (new : contains is i ≡ false) (h : Holds v state is active tombstones) where
      no_active : some_id kind.item i active ≡ false
      no_active = elim (Bool-cases (some_id kind.item i active)) [
        | inl there ↦ absurd (ground (arith, h.active_listed i there))
        | inr absent ↦ absent
      ]

      no_tombstone : some_id deleted_item i tombstones ≡ false
      no_tombstone = elim (Bool-cases (some_id deleted_item i tombstones)) [
        | inl there ↦ absurd (ground (arith, h.deleted_listed i there))
        | inr absent ↦ absent
      ]

      push_present :
          (a : A)
          → Fits v i (present a)
          → state i ≡ ok (present a)
          → Holds v state (i ∷ is) (a ∷ active) tombstones
      unfolding find_state
      push_present a (own, covered) e = record {
        sound = record {
          separate = record {
            active_once = (
              contains-ids kind.item active (kind.id a) ∙ rw own no_active,
              h.sound.separate.active_once,
            );
            deleted_once = h.sound.separate.deleted_once;
            apart = λ j m. elim (Bool-cases (kind.id a == j)) [
              | inl same ↦
                  let i_is_j : i ≡ j = sym own ∙ (eq_iff (kind.id a) j).0 same in
                  contains-ids deleted_item tombstones j ∙ rw (← i_is_j) no_tombstone
              | inr other ↦ h.sound.separate.apart j (ground arith)
            ];
          };
          active_covered = (covered, h.sound.active_covered);
          deleted_covered = h.sound.deleted_covered;
        };
        active_listed =
            λ j m. ground (arith, own, eq_iff (kind.id a) j, eq_iff i j, h.active_listed j);
        deleted_listed = λ j m. ground (arith, h.deleted_listed j m);
        found = λ both j m. elim (Bool-cases (i == j)) [
          | inl same ↦
              let i_is_j = (eq_iff i j).0 same in
              ground (
                arith,
                own,
                i_is_j,
                eq_iff (kind.id a) j,
                e,
                find-eq-none_of_any (λ t. t.id == i) tombstones no_tombstone,
              )
          | inr other ↦ ground (arith, own, eq_iff (kind.id a) j, eq_iff i j, h.found both j)
        ];
      }

      push_deleted :
          (t : Deleted)
          → Fits v i (deleted t)
          → state i ≡ ok (deleted t)
          → Holds v state (i ∷ is) active (t ∷ tombstones)
      unfolding find_state
      push_deleted t (own, covered) e = record {
        sound = record {
          separate = record {
            active_once = h.sound.separate.active_once;
            deleted_once = (
              contains-ids deleted_item tombstones t.id ∙ rw own no_tombstone,
              h.sound.separate.deleted_once,
            );
            apart = λ j m. elim (Bool-cases (t.id == j)) [
              | inl same ↦
                  let i_is_j : i ≡ j = sym own ∙ (eq_iff t.id j).0 same in
                  absurd (ground (arith, contains-ids kind.item active j, m, i_is_j, no_active))
              | inr other ↦ ground (arith, h.sound.separate.apart j m)
            ];
          };
          active_covered = h.sound.active_covered;
          deleted_covered = (covered, h.sound.deleted_covered);
        };
        active_listed = λ j m. ground (arith, h.active_listed j m);
        deleted_listed = λ j m. ground (arith, own, eq_iff t.id j, eq_iff i j, h.deleted_listed j);
        found = λ both j m. elim (Bool-cases (i == j)) [
          | inl same ↦
              let i_is_j = (eq_iff i j).0 same in
              ground (
                arith,
                own,
                i_is_j,
                eq_iff t.id j,
                e,
                find-eq-none_of_any (λ a. kind.id a == i) active no_active,
              )
          | inr other ↦ ground (arith, own, eq_iff t.id j, eq_iff i j, h.found both j)
        ];
      }

      push_missing : state i ≡ ok missing → Holds v state (i ∷ is) active tombstones
      unfolding find_state
      push_missing e = record {
        sound = h.sound;
        active_listed = λ j m. ground (arith, h.active_listed j m);
        deleted_listed = λ j m. ground (arith, h.deleted_listed j m);
        found = λ both j m. elim (Bool-cases (i == j)) [
          | inl same ↦
              let i_is_j = (eq_iff i j).0 same in
              ground (
                arith,
                i_is_j,
                e,
                find-eq-none_of_any (λ a. kind.id a == i) active no_active,
                find-eq-none_of_any (λ t. t.id == i) tombstones no_tombstone,
              )
          | inr other ↦ ground (arith, eq_iff i j, h.found both j)
        ];
      }

      push_state-Holds :
          (s : Reviewable A)
          → Fits v i s
          → state i ≡ ok s
          → Holds v state
              (i ∷ is)
              (push_state s (active, tombstones)).0
              (push_state s (active, tombstones)).1
      push_state-Holds (present a) = push_present a
      push_state-Holds (deleted t) = push_deleted t
      push_state-Holds missing = λ _. push_missing

  -- The lists that are built hold the state of each identifier that is gone through.
  pub build_from-Holds :
      (v : VersionVector) (local : List A) (local_deleted : List Deleted)
      (resolved : Map (Reviewable A)) (is : List String) (built : List A × List Deleted)
      → Distinct is
      → ((i : String) (s : Reviewable A)
          → state_or_local kind local local_deleted resolved i ≡ ok s
          → Fits v i s)
      → build_from kind local local_deleted resolved is ≡ ok built
      → Holds v (state_or_local kind local local_deleted resolved) is built.0 built.1
  unfolding build_from
  build_from-Holds v local local_deleted resolved [] built d fits e =
      let nothing : ([], []) ≡ built = ground arith in
      rw (← nothing) (record {
        sound = record {
          separate = record { active_once = tt; deleted_once = tt; apart = λ i m. refl };
          active_covered = tt;
          deleted_covered = tt;
        };
        active_listed = λ i m. m;
        deleted_listed = λ i m. m;
        found = λ both i m. absurd (cc);
      })
  build_from-Holds v local local_deleted resolved (i ∷ is) built (new, d) fits e =
      let state = state_or_local kind local local_deleted resolved in
      let (s, here, e₁) = >>=-eq-ok (state i) _ e in
      let (rest, more, e₂) = >>=-eq-ok (build_from kind local local_deleted resolved is) _ e₁ in
      let total : push_state s rest ≡ built = ground arith in
      rw (← total) (
        push_state-Holds v state i is rest.0 rest.1 new
          (build_from-Holds v local local_deleted resolved is rest d fits more) s (fits i s here)
          here)
