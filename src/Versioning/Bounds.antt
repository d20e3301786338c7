-- ===== src/Versioning/Bounds.antt =====
-- Counting and merging move vectors up: what a device stamps is ahead of all that it has seen,
-- until its count reaches 2^53.
use engr_serverless_pm.Base.{◌≤◌, ◌<◌, String, ◌≡◌, ◌↔◌, arith, eq_iff, ltb, Bool-cases, inl, inr}
use engr_serverless_pm.Versioning.{
  VersionVector, equal, local_ahead, get, max_count, next, increment_version_vector,
  merge_version_vectors, compare_version_vectors,
}
use engr_serverless_pm.Versioning.Vectors.{get-increment, get-merge}
use engr_serverless_pm.Versioning.Order.{AtMost, compare-eq_iff}

-- No count is above 2^53.
abbrev pub IsBounded : VersionVector → Type 0
IsBounded v = (d : String) → get v d ≤ max_count

pub increment-IsBounded :
    (v : VersionVector) (d : String) → IsBounded v → IsBounded (increment_version_vector v d)
unfolding next
increment-IsBounded v d h x = ground (arith, get-increment v d x, h x, h d)

pub AtMost-increment : (v : VersionVector) (d : String) → AtMost v (increment_version_vector v d)
unfolding next
AtMost-increment v d x = ground (arith, get-increment v d x, eq_iff d x)

pub increment-AtMost :
    (v w : VersionVector) (d : String)
    → AtMost v w
    → AtMost (increment_version_vector v d) (increment_version_vector w d)
unfolding next
increment-AtMost v w d h x =
    ground (arith, get-increment v d x, get-increment w d x, h x, h d, eq_iff d x)

get-increment_self :
    (v : VersionVector) (d : String) → get (increment_version_vector v d) d ≡ next (get v d)
get-increment_self v d = ground (arith, get-increment v d d, eq_iff d d)

-- A vector at most another, on which the device then counts one more, is behind the result.
pub increment-Newer :
    (v w : VersionVector) (d : String)
    → AtMost v w
    → get w d < max_count
    → compare_version_vectors (increment_version_vector w d) v ≡ local_ahead
unfolding next
increment-Newer v w d h room = (compare-eq_iff local_ahead _ v).1 (
  λ x. omega (arith, h x, AtMost-increment w d x),
  (d, ground (arith, get-increment_self w d, h d)),
)

increment_exhausted :
    (v : VersionVector) (d : String)
    → get v d ≡ max_count
    → compare_version_vectors (increment_version_vector v d) v ≡ equal
unfolding next
increment_exhausted v d full =
    (compare-eq_iff equal _ v).1 (λ x. ground (arith, get-increment v d x, eq_iff d x))

-- On vectors with counts up to 2^53, counting gives a vector ahead of the old one exactly when
-- the device's count was below 2^53.
pub increment-ahead_iff :
    (v : VersionVector) (d : String)
    → IsBounded v
    → (compare_version_vectors (increment_version_vector v d) v ≡ local_ahead)
      ↔ (get v d < max_count)
increment-ahead_iff v d bounded = (
  λ ahead. elim (Bool-cases (ltb (get v d) max_count)) [
    | inl e ↦ ground arith
    | inr e ↦ absurd (cc (increment_exhausted v d (ground (arith, bounded d))))
  ],
  increment-Newer v v d (λ x. omega arith),
)

-- A merge is the least vector that counts no device lower than either side.
pub merge_least :
    (local remote bound : VersionVector)
    → (AtMost local bound × AtMost remote bound) ↔ AtMost (merge_version_vectors local remote) bound
merge_least local remote bound = (
  λ h d. omega (arith, get-merge local remote d, h.0 d, h.1 d),
  λ h. (
    λ d. omega (arith, get-merge local remote d, h d),
    λ d. omega (arith, get-merge local remote d, h d),
  ),
)

-- The order in which sides are merged, and how often, is not seen by a comparison.
pub merge_laws :
    (u v w : VersionVector)
    → (compare_version_vectors (merge_version_vectors u v) (merge_version_vectors v u) ≡ equal)
      × (compare_version_vectors
            (merge_version_vectors (merge_version_vectors u v) w)
            (merge_version_vectors u (merge_version_vectors v w))
          ≡ equal)
      × (compare_version_vectors (merge_version_vectors u u) u ≡ equal)
merge_laws u v w = (
  (compare-eq_iff equal _ _).1 (λ d. omega (arith, get-merge u v d, get-merge v u d)),
  (compare-eq_iff equal _ _).1 λ d. omega (
    arith,
    get-merge (merge_version_vectors u v) w d,
    get-merge u v d,
    get-merge u (merge_version_vectors v w) d,
    get-merge v w d,
  ),
  (compare-eq_iff equal _ _).1 (λ d. omega (arith, get-merge u u d)),
)

-- A vector merged from both sides and counted once by a device with room is ahead of both.
pub stamp-ahead :
    (local remote : VersionVector) (d : String)
    → get local d < max_count
    → get remote d < max_count
    → (compare_version_vectors
          (increment_version_vector (merge_version_vectors local remote) d)
          local
        ≡ local_ahead)
      × (compare_version_vectors
            (increment_version_vector (merge_version_vectors local remote) d)
            remote
          ≡ local_ahead)
stamp-ahead local remote d h k =
    let merged = merge_version_vectors local remote in
    let both = (merge_least local remote merged).1 (λ x. omega arith) in
    let room : get merged d < max_count = omega (arith, get-merge local remote d) in
    (increment-Newer local merged d both.0 room, increment-Newer remote merged d both.1 room)
