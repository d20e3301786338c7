-- ===== src/Tests/Versions.antt =====
-- Version vectors and snapshot descriptors compared.
use engr_serverless_pm.Base.{
  ◌⊎◌, ◌≢◌, ◌<◌, max, ◌≡◌, ◌↔◌, refl, true, [], ◌∷◌, arith, eq_iff, ◌==◌, if◌then◌else◌,
}
use engr_serverless_pm.Versioning.{
  VersionVector, local_ahead, remote_ahead, broken, get, max_count, next, increment_version_vector,
  merge_version_vectors, is_version_vector_ahead_of, compare_version_vectors,
}
use engr_serverless_pm.Versioning.Vectors.{get-merge, get-increment}
use engr_serverless_pm.Versioning.Order.{
  AtMost, Newer, Means, compare-eq_iff, flip, compare-flip, ahead_iff,
}
use engr_serverless_pm.Versioning.Bounds.{IsBounded, increment-ahead_iff, merge_least, stamp-ahead}
use engr_serverless_pm.Snapshot.{
  VaultSnapshotDescriptor, VaultSnapshotIdentity, are_vault_snapshot_identities_equal,
  compare_vault_snapshot_descriptors,
}
use engr_serverless_pm.Snapshot.Identity.{
  SameRevision, identities-equal_iff, compare-descriptors_iff,
}

abbrev laptop_2 : VersionVector
laptop_2 = ("laptop", 2) ∷ ("phone", 1) ∷ []

abbrev phone_3 : VersionVector
phone_3 = ("phone", 3) ∷ ("laptop", 1) ∷ []

apart : compare_version_vectors laptop_2 phone_3 ≡ broken
unfolding compare_version_vectors
apart = refl

compare-eq_iff_example : Means broken laptop_2 phone_3
compare-eq_iff_example = (compare-eq_iff broken laptop_2 phone_3).0 apart

compare-flip_example :
    compare_version_vectors phone_3 laptop_2 ≡ flip (compare_version_vectors laptop_2 phone_3)
compare-flip_example = compare-flip laptop_2 phone_3

phone_newer : is_version_vector_ahead_of phone_3 laptop_2 ≡ true
unfolding is_version_vector_ahead_of
phone_newer = refl

ahead_iff_example : Newer phone_3 laptop_2
ahead_iff_example = (ahead_iff phone_3 laptop_2).0 phone_newer

get-merge_example :
    get (merge_version_vectors laptop_2 phone_3) "phone"
    ≡ max (get laptop_2 "phone") (get phone_3 "phone")
get-merge_example = get-merge laptop_2 phone_3 "phone"

get-increment_example :
    get (increment_version_vector laptop_2 "phone") "laptop"
    ≡ (if "phone" == "laptop" then next (get laptop_2 "phone") else get laptop_2 "laptop")
get-increment_example = get-increment laptop_2 "phone" "laptop"

laptop_2-IsBounded : IsBounded laptop_2
unfolding get
laptop_2-IsBounded d = ground (arith, eq_iff "laptop" d, eq_iff "phone" d)

phone_3-IsBounded : IsBounded phone_3
unfolding get
phone_3-IsBounded d = ground (arith, eq_iff "laptop" d, eq_iff "phone" d)

increment-ahead_iff_example :
    (compare_version_vectors (increment_version_vector laptop_2 "phone") laptop_2 ≡ local_ahead)
    ↔ (get laptop_2 "phone" < max_count)
increment-ahead_iff_example = increment-ahead_iff laptop_2 "phone" laptop_2-IsBounded

merge_least_example :
    (AtMost laptop_2 (("laptop", 2) ∷ ("phone", 3) ∷ [])
      × AtMost phone_3 (("laptop", 2) ∷ ("phone", 3) ∷ []))
    ↔ AtMost (merge_version_vectors laptop_2 phone_3) (("laptop", 2) ∷ ("phone", 3) ∷ [])
merge_least_example = merge_least laptop_2 phone_3 (("laptop", 2) ∷ ("phone", 3) ∷ [])

stamp-ahead_example :
    (compare_version_vectors
        (increment_version_vector (merge_version_vectors laptop_2 phone_3) "laptop")
        laptop_2
      ≡ local_ahead)
    × (compare_version_vectors
          (increment_version_vector (merge_version_vectors laptop_2 phone_3) "laptop")
          phone_3
        ≡ local_ahead)
unfolding get
stamp-ahead_example = stamp-ahead laptop_2 phone_3 "laptop" (omega arith) (omega arith)

abbrev descriptor : VersionVector → VaultSnapshotDescriptor
descriptor v = record { vault_id = "vault"; snapshot_version_vector = v; revision_timestamp = 10 }

abbrev identity : VersionVector → VaultSnapshotIdentity
identity v = record { descriptor = descriptor v; snapshot_digest = "digest" }

reordered :
    are_vault_snapshot_identities_equal
      (identity laptop_2)
      (identity (("phone", 1) ∷ ("laptop", 2) ∷ []))
    ≡ true
unfolding are_vault_snapshot_identities_equal compare_version_vectors
reordered = refl

identities-equal_iff_example :
    ((identity laptop_2).snapshot_digest
      ≡ (identity (("phone", 1) ∷ ("laptop", 2) ∷ [])).snapshot_digest)
    × SameRevision (descriptor laptop_2) (descriptor (("phone", 1) ∷ ("laptop", 2) ∷ []))
identities-equal_iff_example =
    (identities-equal_iff (identity laptop_2) (identity (("phone", 1) ∷ ("laptop", 2) ∷ []))).0
      reordered

behind :
    compare_vault_snapshot_descriptors (descriptor (("phone", 1) ∷ [])) (descriptor laptop_2)
    ≡ remote_ahead
unfolding compare_vault_snapshot_descriptors compare_version_vectors
behind = refl

compare-descriptors_iff_example :
    (((descriptor (("phone", 1) ∷ [])).vault_id ≡ (descriptor laptop_2).vault_id)
      × Means remote_ahead (("phone", 1) ∷ []) laptop_2)
    ⊎ (((descriptor (("phone", 1) ∷ [])).vault_id ≢ (descriptor laptop_2).vault_id)
        × (remote_ahead ≡ broken))
compare-descriptors_iff_example =
    (compare-descriptors_iff remote_ahead (descriptor (("phone", 1) ∷ [])) (descriptor laptop_2)).0
      behind
