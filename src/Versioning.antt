-- ===== src/Versioning.antt =====
-- packages/core/src/domain/versioning: version vectors, objects from device identifiers to counts.
-- An object is an association list whose keys are distinct; its key order is not observed. Counts
-- are the integers up to 2^53: the addition of 1 leaves that last one as it is, as the addition of
-- JavaScript numbers does, so no operation leaves the range.
pub mod Vectors
pub mod Order
pub mod Bounds
use engr_serverless_pm.Base.{
  ℕ, ◌+◌, max, String, Bool, true, false, ◌||◌, List, [], ◌∷◌, ◌++◌, map, ◌==◌, if◌then◌else◌, ltb,
  any, set_of,
}

abbrev pub VersionVector : Type 0
VersionVector = List (String × ℕ)

-- `remote_missing`, which no function of this module returns, is left out.
pub data VersionVectorRelation : Type 0 where
  equal local_ahead remote_ahead broken : VersionVectorRelation

-- `Object.keys(v)`
abbrev pub keys : VersionVector → List String
keys = map (λ e. e.0)

-- `v[deviceId] ?? 0`
unfoldable pub get : VersionVector → String → ℕ
get [] d = 0
get ((k, n) ∷ v) d = if k == d then n else get v d

-- `{ ...v, [deviceId]: n }`, and `v[deviceId] = n`
unfoldable pub set : VersionVector → String → ℕ → VersionVector
set [] d n = (d, n) ∷ []
set ((k, m) ∷ v) d n = if k == d then (k, n) ∷ v else (k, m) ∷ set v d n

abbrev pub max_count : ℕ
max_count = 9007199254740992

-- `n + 1`, on numbers up to 2^53
unfoldable pub next : ℕ → ℕ
next n = if ltb n max_count then n + 1 else n

unfoldable pub increment_version_vector : VersionVector → String → VersionVector
unfolding get set next
increment_version_vector v d = set v d (next (get v d))

-- the loop of `mergeVersionVectors`
unfoldable pub merge_from :
    VersionVector → VersionVector → VersionVector → List String → VersionVector
unfolding get set
merge_from merged local remote [] = merged
merge_from merged local remote (d ∷ ds) =
    merge_from (set merged d (max (get local d) (get remote d))) local remote ds

unfoldable pub merge_version_vectors : VersionVector → VersionVector → VersionVector
unfolding merge_from set_of
merge_version_vectors local remote = merge_from [] local remote (set_of (keys local ++ keys remote))

unfoldable pub is_version_vector_ahead_of : VersionVector → VersionVector → Bool
unfolding get
is_version_vector_ahead_of candidate baseline =
    any (λ d. ltb (get baseline d) (get candidate d)) (keys candidate)

-- the loop of `compareVersionVectors`, over its two flags
unfoldable pub compare_from :
    Bool → Bool → VersionVector → VersionVector → List String → VersionVectorRelation
unfolding get
compare_from true true local remote [] = broken
compare_from true false local remote [] = local_ahead
compare_from false true local remote [] = remote_ahead
compare_from false false local remote [] = equal
compare_from newer_local newer_remote local remote (d ∷ ds) =
    compare_from (newer_local || ltb (get remote d) (get local d))
      (newer_remote || ltb (get local d) (get remote d)) local remote ds

unfoldable pub compare_version_vectors : VersionVector → VersionVector → VersionVectorRelation
unfolding compare_from set_of
compare_version_vectors local remote =
    compare_from false false local remote (set_of (keys local ++ keys remote))
