-- ===== src/Versioning/Order.antt =====
-- What the comparison of two version vectors means, device by device.
use engr_serverless_pm.Base.{
  ◌≤◌, ◌<◌, String, ◌≡◌, refl, ◌∙◌, ◌↔◌, inl, inr, Bool, true, false, ◌||◌, List, [], ◌∷◌, ◌++◌,
  arith, ltb, ltb→lt, lt→ltb, ltb_false→le, Bool-cases, any, contains, contains-append,
  any_of_contains, contains_of_any, set_of, contains-set_of,
}
use engr_serverless_pm.Versioning.{
  VersionVector, VersionVectorRelation, equal, local_ahead, remote_ahead, broken, keys, get,
  is_version_vector_ahead_of, compare_from, compare_version_vectors,
}
use engr_serverless_pm.Versioning.Vectors.{get_of_absent}

-- `v` counts no device higher than `w`.
abbrev pub AtMost : VersionVector → VersionVector → Type 0
AtMost v w = (d : String) → get v d ≤ get w d

-- `v` counts some device higher than `w`.
abbrev pub Newer : VersionVector → VersionVector → Type 0
Newer v w = (d : String) × (get w d < get v d)

-- What each relation says of the local vector and the remote one.
abbrev pub Means : VersionVectorRelation → VersionVector → VersionVector → Type 0
Means equal local remote = (d : String) → get local d ≡ get remote d
Means local_ahead local remote = AtMost remote local × Newer local remote
Means remote_ahead local remote = AtMost local remote × Newer remote local
Means broken local remote = Newer local remote × Newer remote local

abbrev newer_at : VersionVector → VersionVector → String → Bool
newer_at v w d = ltb (get w d) (get v d)

verdict : Bool → Bool → VersionVectorRelation
verdict true true = broken
verdict true false = local_ahead
verdict false true = remote_ahead
verdict false false = equal

compare_from-verdict :
    (a b : Bool) (local remote : VersionVector) (ds : List String)
    → compare_from a b local remote ds
      ≡ verdict (a || any (newer_at local remote) ds) (b || any (newer_at remote local) ds)
unfolding compare_from verdict
compare_from-verdict true true local remote [] = refl
compare_from-verdict true false local remote [] = refl
compare_from-verdict false true local remote [] = refl
compare_from-verdict false false local remote [] = refl
compare_from-verdict true true local remote (d ∷ ds) =
    compare_from-verdict true true local remote ds
compare_from-verdict true false local remote (d ∷ ds) =
    compare_from-verdict true (newer_at remote local d) local remote ds ∙ ground arith
compare_from-verdict false true local remote (d ∷ ds) =
    compare_from-verdict (newer_at local remote d) true local remote ds ∙ ground arith
compare_from-verdict false false local remote (d ∷ ds) =
    compare_from-verdict (newer_at local remote d) (newer_at remote local d) local remote ds

-- The identifiers that the loop runs over.
abbrev ids : VersionVector → VersionVector → List String
ids local remote = set_of (keys local ++ keys remote)

-- Only a device that `v` names can be one where `v` is newer.
key_of_newer : (v w : VersionVector) (d : String) → get w d < get v d → contains (keys v) d ≡ true
key_of_newer v w d h = elim (Bool-cases (contains (keys v) d)) [
  | inl there ↦ there
  | inr absent ↦ absurd (omega (arith, get_of_absent v d absent))
]

contains-ids :
    (local remote : VersionVector) (d : String)
    → contains (ids local remote) d ≡ (contains (keys local) d || contains (keys remote) d)
contains-ids local remote d =
    contains-set_of (keys local ++ keys remote) d ∙ contains-append (keys local) (keys remote) d

Newer-of_any : (v w : VersionVector) (ds : List String) → any (newer_at v w) ds ≡ true → Newer v w
Newer-of_any v w ds h = let (d, m, k) = contains_of_any (newer_at v w) ds h in (d, ltb→lt _ _ k)

any_of_Newer :
    (v w : VersionVector) (ds : List String) (n : Newer v w)
    → contains ds n.0 ≡ true
    → any (newer_at v w) ds ≡ true
any_of_Newer v w ds (d, lt) m = any_of_contains (newer_at v w) ds d m (lt→ltb _ _ lt)

AtMost-of_any :
    (v w : VersionVector) (ds : List String)
    → ((n : Newer v w) → contains ds n.0 ≡ true)
    → any (newer_at v w) ds ≡ false
    → AtMost v w
AtMost-of_any v w ds covers h d = elim (Bool-cases (newer_at v w d)) [
  | inl e ↦ absurd (cc (any_of_Newer v w ds (d, ltb→lt _ _ e) (covers (d, ltb→lt _ _ e))))
  | inr e ↦ ltb_false→le _ _ e
]

verdict-Means :
    (local remote : VersionVector) (a b : Bool)
    → (a ≡ true → Newer local remote)
    → (a ≡ false → AtMost local remote)
    → (b ≡ true → Newer remote local)
    → (b ≡ false → AtMost remote local)
    → Means (verdict a b) local remote
unfolding verdict
verdict-Means local remote true true n m n' m' = (n refl, n' refl)
verdict-Means local remote true false n m n' m' = (m' refl, n refl)
verdict-Means local remote false true n m n' m' = (m refl, n' refl)
verdict-Means local remote false false n m n' m' = λ d. omega (arith, m refl d, m' refl d)

-- The answer of a comparison says how the two vectors stand.
pub compare-Means :
    (local remote : VersionVector) → Means (compare_version_vectors local remote) local remote
unfolding compare_version_vectors
compare-Means local remote = rw (compare_from-verdict false false local remote (ids local remote)) (
    verdict-Means local remote _ _ (Newer-of_any local remote _)
      (AtMost-of_any local remote _
        λ n. contains-ids local remote n.0 ∙ ground (arith, key_of_newer local remote n.0 n.1))
      (Newer-of_any remote local _)
      (AtMost-of_any remote local _
        λ n. contains-ids local remote n.0 ∙ ground (arith, key_of_newer remote local n.0 n.1)))

Means-unique :
    (r s : VersionVectorRelation) (local remote : VersionVector)
    → Means r local remote
    → Means s local remote
    → r ≡ s
Means-unique equal equal l r p q = refl
Means-unique equal local_ahead l r p q = absurd (omega (arith, p q.1.0, q.1.1))
Means-unique equal remote_ahead l r p q = absurd (omega (arith, p q.1.0, q.1.1))
Means-unique equal broken l r p q = absurd (omega (arith, p q.0.0, q.0.1))
Means-unique local_ahead equal l r p q = absurd (omega (arith, q p.1.0, p.1.1))
Means-unique local_ahead local_ahead l r p q = refl
Means-unique local_ahead remote_ahead l r p q = absurd (omega (arith, q.0 p.1.0, p.1.1))
Means-unique local_ahead broken l r p q = absurd (omega (arith, p.0 q.1.0, q.1.1))
Means-unique remote_ahead equal l r p q = absurd (omega (arith, q p.1.0, p.1.1))
Means-unique remote_ahead local_ahead l r p q = absurd (omega (arith, q.0 p.1.0, p.1.1))
Means-unique remote_ahead remote_ahead l r p q = refl
Means-unique remote_ahead broken l r p q = absurd (omega (arith, p.0 q.0.0, q.0.1))
Means-unique broken equal l r p q = absurd (omega (arith, q p.0.0, p.0.1))
Means-unique broken local_ahead l r p q = absurd (omega (arith, q.0 p.1.0, p.1.1))
Means-unique broken remote_ahead l r p q = absurd (omega (arith, q.0 p.0.0, p.0.1))
Means-unique broken broken l r p q = refl

-- A comparison answers `r` exactly when the vectors stand so: each count equal; the one at least
-- the other everywhere and greater somewhere; or each greater than the other somewhere.
pub compare-eq_iff :
    (r : VersionVectorRelation) (local remote : VersionVector)
    → (compare_version_vectors local remote ≡ r) ↔ Means r local remote
compare-eq_iff r local remote = (
  λ e. rw e at (compare-Means local remote),
  λ m. Means-unique _ r local remote (compare-Means local remote) m,
)

abbrev pub flip : VersionVectorRelation → VersionVectorRelation
flip equal = equal
flip local_ahead = remote_ahead
flip remote_ahead = local_ahead
flip broken = broken

Means-flip : (r : VersionVectorRelation) (v w : VersionVector) → Means r v w → Means (flip r) w v
Means-flip equal v w m = λ d. omega (arith, m d)
Means-flip local_ahead v w m = m
Means-flip remote_ahead v w m = m
Means-flip broken v w m = (m.1, m.0)

-- Seen from the other side, a comparison answers the opposite.
pub compare-flip :
    (local remote : VersionVector)
    → compare_version_vectors remote local ≡ flip (compare_version_vectors local remote)
compare-flip local remote =
    (compare-eq_iff _ remote local).1 (Means-flip _ local remote (compare-Means local remote))

-- A vector is ahead of another exactly when it counts some device higher, whatever else it lacks.
pub ahead_iff :
    (candidate baseline : VersionVector)
    → (is_version_vector_ahead_of candidate baseline ≡ true) ↔ Newer candidate baseline
unfolding is_version_vector_ahead_of
ahead_iff candidate baseline = (
  Newer-of_any candidate baseline (keys candidate),
  λ n. any_of_Newer candidate baseline (keys candidate) n (key_of_newer candidate baseline n.0 n.1),
)
