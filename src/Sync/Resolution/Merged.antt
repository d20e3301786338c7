-- ===== src/Sync/Resolution/Merged.antt =====
-- What a review, the choices and the building of one collection come to together.
use engr_serverless_pm.Base.{
  String, ◌≡◌, refl, ◌∙◌, true, false, Error, Option, List, [], ◌∷◌, Result, ok, arith, eq_iff,
  contains, Map, Distinct,
}
use engr_serverless_pm.Versioning.{VersionVector}
use engr_serverless_pm.Vault.{Deleted}
use engr_serverless_pm.Vault.Collections.{All}
use engr_serverless_pm.Vault.Sound.{IsSound}
use engr_serverless_pm.Sync.{Reviewable, ReviewItem, ReviewResolution, Kind}
use engr_serverless_pm.Sync.Review.{find_state, find_changed_from}
use engr_serverless_pm.Sync.Review.Complete.{row_ids, find_changed-ShowsAll}
use engr_serverless_pm.Sync.Resolution.{
  held_twice, stamp_state, get_state, state_or_local, resolve_states, build_from,
}
use engr_serverless_pm.Sync.Resolution.Choices.{find_resolution}
use engr_serverless_pm.Sync.Resolution.Resolved.{
  chosen, HasChoice, IsResolved, Accepts, resolve_states-Resolves,
}
use engr_serverless_pm.Sync.Resolution.Built.{Fits, build_from-Holds}
use engr_serverless_pm.Sync.Resolution.Fit.{agreed, state-Fits}

-- The item of a row has a choice, and its state is the chosen one, stamped.
abbrev pub HasState :
    {A : Type 0}
    → Kind A
    → String
    → (String → Option ReviewResolution)
    → List A
    → List Deleted
    → ReviewItem A
    → Type 0
HasState kind d choice active tombstones row =
    (c : HasChoice choice row) × (get_state kind active tombstones row.id
      ≡ ok (stamp_state kind (chosen row c.0) row.local row.remote d))

module _ {A : Type 0} (kind : Kind A) (local : List A) (local_deleted : List Deleted) (d : String)
    (is : List String) (rows : List (ReviewItem A)) (rs : List ReviewResolution) (active : List A)
    (tombstones : List Deleted) where
  -- The lists are sound under `u`. The choices are those that the rows need; an item with a row has
  -- the chosen state, stamped, and any other listed item is as it was on the local side.
  pub record Merges (u : VersionVector) : Type 0 where
    pub sound : IsSound kind.item u active tombstones
    pub accepts : Accepts rows rs
    pub reviewed : All (HasState kind d (λ i. find_resolution i rs) active tombstones) rows
    pub kept :
        (i : String)
        → contains is i ≡ true
        → contains (row_ids rows) i ≡ false
        → get_state kind active tombstones i ≡ get_state kind local local_deleted i

module _ {A : Type 0} (kind : Kind A) (d : String) (local : List A) (local_deleted : List Deleted)
    (choice : String → Option ReviewResolution) where
  reviewed_rows :
      (resolved : Map (Reviewable A)) (is : List String) (active : List A)
      (tombstones : List Deleted)
      → ((both : String → Error) (i : String)
          → contains is i ≡ true
          → find_state kind.item both active tombstones i
            ≡ state_or_local kind local local_deleted resolved i)
      → (rows : List (ReviewItem A))
      → ((i : String) → contains (row_ids rows) i ≡ true → contains is i ≡ true)
      → All (IsResolved kind d choice resolved) rows
      → All (HasState kind d choice active tombstones) rows
  unfolding get_state
  reviewed_rows resolved is active tombstones found [] listed h = tt
  reviewed_rows resolved is active tombstones found (row ∷ rows) listed ((c, reads), h) = (
    (
      c,
      found held_twice row.id (listed row.id (ground (arith, eq_iff row.id row.id)))
          ∙ rw (reads, state_or_local) refl,
    ),
    reviewed_rows resolved is active tombstones found rows (λ i m. listed i (ground arith)) h,
  )

-- One collection: the rows of its review, resolved and built, merge the two sides.
module _ {A : Type 0} (kind : Kind A) (v w : VersionVector) (d : String)
    (find_local find_remote : String → Result (Reviewable A))
    (local_Fits : (i : String) (s : Reviewable A) → find_local i ≡ ok s → Fits kind v i s)
    (remote_Fits : (i : String) (s : Reviewable A) → find_remote i ≡ ok s → Fits kind w i s) where
  pub built-Merges :
      (local : List A) (local_deleted : List Deleted) (is : List String)
      (rows : List (ReviewItem A)) (rs : List ReviewResolution) (resolved : Map (Reviewable A))
      (built : List A × List Deleted)
      → IsSound kind.item v local local_deleted
      → Distinct is
      → find_changed_from kind find_local find_remote is ≡ ok rows
      → resolve_states kind rows rs d ≡ ok resolved
      → build_from kind local local_deleted resolved is ≡ ok built
      → Merges kind local local_deleted d is rows rs built.0 built.1 (agreed kind v w d)
  unfolding get_state
  built-Merges local local_deleted is rows rs resolved built sound distinct shown done made =
      let all = find_changed-ShowsAll kind find_local find_remote is rows shown in
      let resolves = resolve_states-Resolves kind d rows rs resolved (all.once distinct) done in
      let holds =
        build_from-Holds kind (agreed kind v w d) local local_deleted resolved is built distinct
          (state-Fits kind v w d find_local find_remote local_Fits remote_Fits local local_deleted
            rows rs resolved sound all.faithful resolves)
          made in
      record {
        sound = holds.sound;
        accepts = resolves.accepts;
        reviewed =
            reviewed_rows kind d local local_deleted (λ i. find_resolution i rs) resolved is built.0
              built.1 holds.found rows all.listed resolves.reviewed;
        kept = λ i m other.
            holds.found held_twice i m ∙ rw (resolves.others i other, state_or_local) refl;
      }
