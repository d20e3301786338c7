-- ===== src/Snapshot/Identity.antt =====
-- When two descriptors or identities of packages/core/src/domain/snapshot agree.
use engr_serverless_pm.Base.{
  String, ◌≡◌, refl, sym, ◌↔◌, ◌≢◌, true, arith, ◌==◌, eq_iff, Bool-cases, inl, inr, ◌⊎◌,
}
use engr_serverless_pm.Versioning.{
  VersionVectorRelation, equal, local_ahead, remote_ahead, broken, get,
}
use engr_serverless_pm.Versioning.Order.{Means, compare-eq_iff}
use engr_serverless_pm.Snapshot.{
  VaultSnapshotDescriptor, VaultSnapshotIdentity, is_equal, compare_vault_snapshot_descriptors,
  are_vault_snapshot_descriptors_equal, are_vault_snapshot_identities_equal,
}

-- Two descriptors describe one revision: they agree in everything but the vector's key order.
pub record SameRevision (a b : VaultSnapshotDescriptor) : Type 0 where
  pub vault : a.vault_id ≡ b.vault_id
  pub revised : a.revision_timestamp ≡ b.revision_timestamp
  pub counts : (d : String) → get a.snapshot_version_vector d ≡ get b.snapshot_version_vector d

pub is_equal-eq : (r : VersionVectorRelation) → is_equal r ≡ true → r ≡ equal
is_equal-eq equal h = refl
is_equal-eq local_ahead h = cc
is_equal-eq remote_ahead h = cc
is_equal-eq broken h = cc

pub descriptors-equal_iff :
    (a b : VaultSnapshotDescriptor)
    → (are_vault_snapshot_descriptors_equal a b ≡ true) ↔ SameRevision a b
unfolding are_vault_snapshot_descriptors_equal
descriptors-equal_iff a b = (
  λ h. record {
    vault = ground (arith, eq_iff a.vault_id b.vault_id);
    revised = ground arith;
    counts =
        (compare-eq_iff equal a.snapshot_version_vector b.snapshot_version_vector).0
          (is_equal-eq _ (ground arith));
  },
  λ s. ground (
    arith,
    eq_iff a.vault_id b.vault_id,
    s.vault,
    s.revised,
    (compare-eq_iff equal a.snapshot_version_vector b.snapshot_version_vector).1 s.counts,
  ),
)

-- Two identities are held equal exactly when the digests are the same and the descriptors
-- describe one revision of one vault.
pub identities-equal_iff :
    (a b : VaultSnapshotIdentity)
    → (are_vault_snapshot_identities_equal a b ≡ true)
      ↔ ((a.snapshot_digest ≡ b.snapshot_digest) × SameRevision a.descriptor b.descriptor)
unfolding are_vault_snapshot_identities_equal
identities-equal_iff a b = (
  λ h. (
    ground (arith, eq_iff a.snapshot_digest b.snapshot_digest),
    (descriptors-equal_iff a.descriptor b.descriptor).0 (ground arith),
  ),
  λ h. ground (
    arith,
    eq_iff a.snapshot_digest b.snapshot_digest,
    h.0,
    (descriptors-equal_iff a.descriptor b.descriptor).1 h.1,
  ),
)

-- Descriptors of one vault compare as their vectors do, whatever their revision times, and those of
-- two vaults compare as broken.
pub compare-descriptors_iff :
    (r : VersionVectorRelation) (a b : VaultSnapshotDescriptor)
    → (compare_vault_snapshot_descriptors a b ≡ r) ↔ (
        ((a.vault_id ≡ b.vault_id) × Means r a.snapshot_version_vector b.snapshot_version_vector)
        ⊎ ((a.vault_id ≢ b.vault_id) × (r ≡ broken)))
unfolding compare_vault_snapshot_descriptors
compare-descriptors_iff r a b = elim (Bool-cases (a.vault_id == b.vault_id)) [
  | inl e ↦ rw e (
    λ h. inl ((eq_iff _ _).0 e, (compare-eq_iff r _ _).0 h),
    λ h. elim h [
      | inl (same, means) ↦ (compare-eq_iff r _ _).1 means
      | inr (differ, is) ↦ absurd (differ ((eq_iff _ _).0 e))
    ],
  )
  | inr e ↦ rw e (
    λ h. inr (λ same. ground (arith, eq_iff a.vault_id b.vault_id, same), sym h),
    λ h. elim h [
      | inl (same, means) ↦ absurd (ground (arith, eq_iff a.vault_id b.vault_id, same))
      | inr (differ, is) ↦ sym is
    ],
  )
]
