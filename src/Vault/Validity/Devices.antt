-- ===== src/Vault/Validity/Devices.antt =====
-- The device mutations of packages/core/src/domain/vault keep a vault valid.
use engr_serverless_pm.Base.{
  ℕ, String, ◌≡◌, refl, ◌∙◌, sym, ap, inl, inr, false, not, ◌&&◌, ◌||◌, none, some, List, [], ◌∷◌,
  ◌++◌, map, OnOk, Bool-cases, Option-cases, arith, ◌==◌, eq_iff, filter, contains, contains-append,
  any_of_find, Distinct-append, set_of, contains-set_of,
}
use engr_serverless_pm.Versioning.{VersionVector, get, increment_version_vector}
use engr_serverless_pm.Versioning.Order.{AtMost}
use engr_serverless_pm.Versioning.Bounds.{AtMost-increment, increment-AtMost}
use engr_serverless_pm.Vault.{
  Vault, DeviceProfile, Deleted, device_profile_item, deleted_item, ids, find_id, some_id,
  without_id,
}
use engr_serverless_pm.Vault.Collections.{
  All, All-append, All-filter, contains-ids, ids-append, contains-without, without-Distinct,
  id_of_find, without_absent, contains-filter, filter-Distinct,
}
use engr_serverless_pm.Vault.Sound.{IsSound, IsSound-add, IsSound-grow, IsSound-remove}
use engr_serverless_pm.Vault.Devices.{
  add_device_profile_to_vault, tombstone, replace_other_device_profiles,
  remove_other_device_profiles_from_vault, revoke_device_profile_from_vault,
}
use engr_serverless_pm.Vault.Validity.{IsValid, IsValid-grow, find_covered, added_version-AtMost}

-- Revoking a device's profile keeps a vault valid.
pub revoke_device_profile-IsValid :
    (vault : Vault) (d i : String) (deleted_at : ℕ)
    → IsValid vault
    → IsValid (revoke_device_profile_from_vault vault d i deleted_at)
unfolding revoke_device_profile_from_vault
revoke_device_profile-IsValid vault d i deleted_at s =
    elim (Option-cases (find_id device_profile_item i vault.device_profiles)) [
      | inl e ↦ rw (e, revoke_device_profile_from_vault) s
      | inr (profile, e) ↦
          let g = IsValid-grow vault d s in
          rw (e, revoke_device_profile_from_vault)
            (record {
              entries = g.entries;
              tags = g.tags;
              folders = g.folders;
              device_profiles =
                  IsSound-remove device_profile_item _ _ (AtMost-increment vault.version_vector d)
                    vault.device_profiles vault.deleted_device_profiles _ s.device_profiles
                    (increment-AtMost profile.version_vector vault.version_vector d (
                      find_covered device_profile_item _ vault.device_profiles i profile
                        s.device_profiles.active_covered e));
            })
    ]

-- Adding a profile to a valid vault gives a valid vault, unless it is refused.
pub add_device_profile-IsValid :
    (vault : Vault) (i name : String) (created_at : ℕ)
    → IsValid vault
    → OnOk IsValid (add_device_profile_to_vault vault i name created_at)
unfolding add_device_profile_to_vault
add_device_profile-IsValid vault i name created_at s =
    let active = some_id device_profile_item i vault.device_profiles in
    let deleted = some_id deleted_item i vault.deleted_device_profiles in
    elim (Bool-cases (active || deleted)) [
      | inl e ↦ rw e tt
      | inr e ↦
          let g = IsValid-grow vault i s in
          let absent : deleted ≡ false = ground arith in
          let new_profile : DeviceProfile = record {
            id = i;
            name = name;
            created_at = created_at;
            version_vector = (i, get (increment_version_vector vault.version_vector i) i) ∷ [];
          } in
          let gone = without_absent deleted_item i vault.deleted_device_profiles absent in
          rw e (record {
            entries = g.entries;
            tags = g.tags;
            folders = g.folders;
            device_profiles = rw gone at (
                IsSound-add device_profile_item _ _ (AtMost-increment vault.version_vector i)
                  vault.device_profiles vault.deleted_device_profiles new_profile s.device_profiles
                  (ground arith) (added_version-AtMost vault.version_vector [] i i none refl tt));
          })
    ]

module _ (d : String) (deleted_at : ℕ) where
  ids-tombstones :
      (ps : List DeviceProfile)
      → ids deleted_item (map (tombstone d deleted_at) ps) ≡ ids device_profile_item ps
  ids-tombstones [] = refl
  ids-tombstones (p ∷ ps) = ap (◌∷◌ p.id) (ids-tombstones ps)

  tombstones_covered :
      (v : VersionVector) (ps : List DeviceProfile)
      → All (λ p. AtMost p.version_vector v) ps
      → All
          (λ t. AtMost t.version_vector (increment_version_vector v d))
          (map (tombstone d deleted_at) ps)
  tombstones_covered v [] h = tt
  tombstones_covered v (p ∷ ps) (h, t) =
      (increment-AtMost p.version_vector v d h, tombstones_covered v ps t)

  -- Only the current profile stays; each other one becomes a tombstone in place of any it had.
  replace_others-IsSound :
      (v : VersionVector) (current : DeviceProfile) (active removed : List DeviceProfile)
      (deleted : List Deleted)
      → IsSound device_profile_item v active deleted
      → find_id device_profile_item d active ≡ some current
      → removed ≡ without_id device_profile_item d active
      → IsSound device_profile_item (increment_version_vector v d) (current ∷ []) (
          filter (λ t. not (contains (set_of (ids device_profile_item removed)) t.id)) deleted
          ++ map (tombstone d deleted_at) removed)
  replace_others-IsSound v current active removed deleted s e same =
      let g = IsSound-grow device_profile_item _ _ (AtMost-increment v d) active deleted s in
      let gone = contains (set_of (ids device_profile_item removed)) in
      let kept = filter (λ t. not (gone t.id)) deleted in
      let graves = map (tombstone d deleted_at) removed in
      let in_graves : (i : String)
          → contains (ids deleted_item graves) i
            ≡ (contains (ids device_profile_item active) i && not (i == d)) =
        λ i. rw (ids-tombstones removed, same) (contains-without device_profile_item d active i) in
      let in_gone : (i : String) → gone i ≡ contains (ids deleted_item graves) i = λ i.
        contains-set_of (ids device_profile_item removed) i
        ∙ ap (λ l. contains l i) (sym (ids-tombstones removed)) in
      let in_kept = contains-filter deleted_item (λ i. not (gone i)) deleted in
      record {
        separate = record {
          active_once = (refl, tt);
          deleted_once = rw (ids-append deleted_item kept graves) (
              Distinct-append (ids deleted_item kept) (ids deleted_item graves)
                (filter-Distinct deleted_item (λ i. not (gone i)) deleted s.separate.deleted_once)
                (rw (ids-tombstones removed, same)
                  (without-Distinct device_profile_item d active s.separate.active_once))
                (λ i m. ground (arith, in_kept i, in_gone i, m)));
          apart = λ i m. rw (ids-append deleted_item kept graves) (
              contains-append (ids deleted_item kept) (ids deleted_item graves) i
              ∙ ground (
                arith,
                in_kept i,
                in_graves i,
                m,
                eq_iff current.id i,
                eq_iff i d,
                id_of_find device_profile_item d active current e,
                s.separate.apart i,
                contains-ids device_profile_item active i,
                any_of_find (λ a. a.id == d) active current e,
              ));
        };
        active_covered =
            (find_covered device_profile_item _ active d current g.active_covered e, tt);
        deleted_covered =
            All-append _ kept graves (All-filter _ _ deleted g.deleted_covered)
              (tombstones_covered v removed (rw same (All-filter _ _ active s.active_covered)));
      }

replace_other-IsValid :
    (vault : Vault) (d : String) (deleted_at : ℕ) (current : DeviceProfile)
    (removed : List DeviceProfile)
    → IsValid vault
    → find_id device_profile_item d vault.device_profiles ≡ some current
    → removed ≡ without_id device_profile_item d vault.device_profiles
    → IsValid (replace_other_device_profiles vault d deleted_at current removed)
unfolding replace_other_device_profiles
replace_other-IsValid vault d deleted_at current [] s e same = s
replace_other-IsValid vault d deleted_at current (p ∷ ps) s e same =
    let g = IsValid-grow vault d s in
    record {
      entries = g.entries;
      tags = g.tags;
      folders = g.folders;
      device_profiles =
          replace_others-IsSound d deleted_at vault.version_vector current vault.device_profiles
            (p ∷ ps) vault.deleted_device_profiles s.device_profiles e same;
    }

-- Removing all device profiles but one keeps a vault valid.
pub remove_other_device_profiles-IsValid :
    (vault : Vault) (d : String) (deleted_at : ℕ)
    → IsValid vault
    → IsValid (remove_other_device_profiles_from_vault vault d deleted_at)
unfolding remove_other_device_profiles_from_vault
remove_other_device_profiles-IsValid vault d deleted_at s =
    elim (Option-cases (find_id device_profile_item d vault.device_profiles)) [
      | inl e ↦ rw (e, remove_other_device_profiles_from_vault) s
      | inr (current, e) ↦
          rw (e, remove_other_device_profiles_from_vault)
            (replace_other-IsValid vault d deleted_at current _ s e refl)
    ]
