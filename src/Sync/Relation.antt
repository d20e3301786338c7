-- ===== src/Sync/Relation.antt =====
-- How the local and the remote state of one item stand: `getEntryRelation` of
-- packages/core/src/domain/sync/entry-review.utils.ts and its like.
use engr_serverless_pm.Base.{
  String, ◌≡◌, refl, sym, ◌≢◌, ◌⊎◌, inl, inr, Bool, true, false, ◌||◌, List, [], ◌∷◌, ◌++◌,
  if◌then◌else◌, ltb, Bool-cases, set_of,
}
use engr_serverless_pm.Versioning.{
  VersionVector, VersionVectorRelation, keys, get, compare_from, compare_version_vectors,
}
use engr_serverless_pm.Versioning.Order.{AtMost, Newer, compare-eq_iff}
use engr_serverless_pm.Sync.{
  VaultSyncItemRelation, Reviewable, present, deleted, missing, Kind, get_version_vector, or_empty,
  reviewable_json_equal,
}

-- the loop over the device identifiers, with its flag `remoteHasNewerComponent`
unfoldable pub relation_from :
    Bool → VersionVector → VersionVector → List String → VaultSyncItemRelation
unfolding get
relation_from true local remote [] = VaultSyncItemRelation.remote_ahead
relation_from false local remote [] = VaultSyncItemRelation.broken
relation_from newer local remote (d ∷ ds) =
    let rest = relation_from (newer || ltb (get local d) (get remote d)) local remote ds in
    if ltb (get remote d) (get local d) then VaultSyncItemRelation.broken else rest

unfoldable pub vector_relation : VersionVector → VersionVector → VaultSyncItemRelation
unfolding relation_from set_of
vector_relation local remote = relation_from false local remote (set_of (keys local ++ keys remote))

module _ {A : Type 0} (kind : Kind A) where
  -- The part of `getEntryRelation` after the test for equality.
  changed_relation : Reviewable A → Reviewable A → VaultSyncItemRelation
  changed_relation missing missing = VaultSyncItemRelation.broken
  changed_relation missing remote = VaultSyncItemRelation.remote_only
  changed_relation local missing = VaultSyncItemRelation.broken
  changed_relation (present a) (present b) = vector_relation (kind.version a) (kind.version b)
  changed_relation (present a) (deleted t) = vector_relation (kind.version a) t.version_vector
  changed_relation (deleted s) (present b) = vector_relation s.version_vector (kind.version b)
  changed_relation (deleted s) (deleted t) = vector_relation s.version_vector t.version_vector

  unfoldable pub item_relation : Reviewable A → Reviewable A → VaultSyncItemRelation
  unfolding changed_relation vector_relation
  item_relation local remote =
      if reviewable_json_equal kind local remote
      then VaultSyncItemRelation.equal
      else changed_relation local remote

-- A comparison's answer, as the review reads it.
abbrev pub review_of : VersionVectorRelation → VaultSyncItemRelation
review_of VersionVectorRelation.remote_ahead = VaultSyncItemRelation.remote_ahead
review_of _ = VaultSyncItemRelation.broken

compare_from-broken :
    (newer : Bool) (local remote : VersionVector) (ds : List String)
    → review_of (compare_from true newer local remote ds) ≡ VaultSyncItemRelation.broken
unfolding compare_from
compare_from-broken true local remote [] = refl
compare_from-broken false local remote [] = refl
compare_from-broken true local remote (d ∷ ds) = compare_from-broken true local remote ds
compare_from-broken false local remote (d ∷ ds) =
    compare_from-broken (ltb (get local d) (get remote d)) local remote ds

relation_from-compare :
    (newer : Bool) (local remote : VersionVector) (ds : List String)
    → relation_from newer local remote ds ≡ review_of (compare_from false newer local remote ds)
unfolding relation_from compare_from
relation_from-compare true local remote [] = refl
relation_from-compare false local remote [] = refl
relation_from-compare newer local remote (d ∷ ds) =
    let newer' = newer || ltb (get local d) (get remote d) in
    elim (Bool-cases (ltb (get remote d) (get local d))) [
      | inl e ↦ rw e (sym (compare_from-broken newer' local remote ds))
      | inr e ↦ rw e (relation_from-compare newer' local remote ds)
    ]

-- The early exit of the review's loop changes nothing: it answers as the comparison of version
-- vectors does, with every answer but "remote ahead" read as broken.
pub vector_relation-compare :
    (local remote : VersionVector)
    → vector_relation local remote ≡ review_of (compare_version_vectors local remote)
unfolding vector_relation compare_version_vectors
vector_relation-compare local remote =
    relation_from-compare false local remote (set_of (keys local ++ keys remote))

module _ {A : Type 0} (kind : Kind A) where
  abbrev pub version_of : Reviewable A → VersionVector
  version_of s = or_empty (get_version_vector kind s)

  -- The remote state is a later version of the local one.
  abbrev pub IsLater : Reviewable A → Reviewable A → Type 0
  IsLater local remote =
      AtMost (version_of local) (version_of remote) × Newer (version_of remote) (version_of local)

  -- What each relation says of the two states.
  abbrev pub Describes : VaultSyncItemRelation → Reviewable A → Reviewable A → Type 0
  Describes VaultSyncItemRelation.equal local remote =
      reviewable_json_equal kind local remote ≡ true
  Describes VaultSyncItemRelation.remote_only local remote = (local ≡ missing) × (remote ≢ missing)
  Describes VaultSyncItemRelation.remote_ahead local remote =
      (reviewable_json_equal kind local remote ≡ false)
      × (local ≢ missing)
      × (remote ≢ missing)
      × IsLater local remote
  Describes VaultSyncItemRelation.broken local remote =
      (reviewable_json_equal kind local remote ≡ false)
      × (local ≢ missing)
      × ((remote ≡ missing) ⊎ (¬ IsLater local remote))

  vectors-Describe :
      (local remote : Reviewable A) (r : VersionVectorRelation)
      → compare_version_vectors (version_of local) (version_of remote) ≡ r
      → reviewable_json_equal kind local remote ≡ false
      → local ≢ missing
      → remote ≢ missing
      → Describes (review_of r) local remote
  vectors-Describe local remote VersionVectorRelation.remote_ahead e n l r =
      (n, l, r, (compare-eq_iff VersionVectorRelation.remote_ahead _ _).0 e)
  vectors-Describe local remote VersionVectorRelation.equal e n l r =
      (n, l, inr (λ later. cc (e, (compare-eq_iff VersionVectorRelation.remote_ahead _ _).1 later)))
  vectors-Describe local remote VersionVectorRelation.local_ahead e n l r =
      (n, l, inr (λ later. cc (e, (compare-eq_iff VersionVectorRelation.remote_ahead _ _).1 later)))
  vectors-Describe local remote VersionVectorRelation.broken e n l r =
      (n, l, inr (λ later. cc (e, (compare-eq_iff VersionVectorRelation.remote_ahead _ _).1 later)))

  compared-Describe :
      (local remote : Reviewable A)
      → reviewable_json_equal kind local remote ≡ false
      → local ≢ missing
      → remote ≢ missing
      → Describes (vector_relation (version_of local) (version_of remote)) local remote
  compared-Describe local remote n l r =
      rw (vector_relation-compare (version_of local) (version_of remote))
        (vectors-Describe local remote _ refl n l r)

  changed-Describes :
      (local remote : Reviewable A)
      → reviewable_json_equal kind local remote ≡ false
      → Describes (changed_relation kind local remote) local remote
  unfolding changed_relation get_version_vector
  changed-Describes missing missing n = absurd (cc)
  changed-Describes missing (present b) n = (refl, λ e. cc)
  changed-Describes missing (deleted t) n = (refl, λ e. cc)
  changed-Describes (present a) missing n = (n, (λ e. cc), inl refl)
  changed-Describes (deleted s) missing n = (n, (λ e. cc), inl refl)
  changed-Describes (present a) (present b) n =
      compared-Describe (present a) (present b) n (λ e. cc) (λ e. cc)
  changed-Describes (present a) (deleted t) n =
      compared-Describe (present a) (deleted t) n (λ e. cc) (λ e. cc)
  changed-Describes (deleted s) (present b) n =
      compared-Describe (deleted s) (present b) n (λ e. cc) (λ e. cc)
  changed-Describes (deleted s) (deleted t) n =
      compared-Describe (deleted s) (deleted t) n (λ e. cc) (λ e. cc)

  -- The relation that a review finds says how the two states stand.
  pub item_relation-Describes :
      (local remote : Reviewable A) → Describes (item_relation kind local remote) local remote
  unfolding item_relation
  item_relation-Describes local remote =
      elim (Bool-cases (reviewable_json_equal kind local remote)) [
        | inl e ↦ rw e e
        | inr e ↦ rw e (changed-Describes local remote e)
      ]
