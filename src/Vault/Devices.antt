-- ===== src/Vault/Devices.antt =====
-- packages/core/src/domain/vault/vault-device.mutations.ts
use engr_serverless_pm.Base.{
  ℕ, String, Bool, not, ◌||◌, none, some, List, [], ◌∷◌, ◌++◌, map, Result, ok, err,
  duplicate_vault_device_profile, if◌then◌else◌, filter, contains, set_of,
}
use engr_serverless_pm.Versioning.{get, increment_version_vector}
use engr_serverless_pm.Vault.{
  Vault, DeviceProfile, Deleted, device_profile_item, deleted_item, ids, find_id, some_id,
  without_id,
}

unfoldable pub has_device_profile_state : Vault → String → Bool
has_device_profile_state vault device_id =
    some_id device_profile_item device_id vault.device_profiles
    || some_id deleted_item device_id vault.deleted_device_profiles

unfoldable pub add_device_profile_to_vault : Vault → String → String → ℕ → Result Vault
unfolding has_device_profile_state
add_device_profile_to_vault vault device_id device_name created_at =
    let v = increment_version_vector vault.version_vector device_id in
    let profile : DeviceProfile = record {
      id = device_id;
      name = device_name;
      created_at = created_at;
      version_vector = (device_id, get v device_id) ∷ [];
    } in
    if has_device_profile_state vault device_id
    then err (duplicate_vault_device_profile device_id)
    else ok (record vault {
      version_vector = v;
      device_profiles = vault.device_profiles ++ profile ∷ [];
    })

-- The tombstone of a device profile that `device_id` removes.
abbrev pub tombstone : String → ℕ → DeviceProfile → Deleted
tombstone device_id deleted_at profile = record {
  id = profile.id;
  version_vector = increment_version_vector profile.version_vector device_id;
  deleted_at = deleted_at;
}

-- The vault with the current device's profile alone; the removed ones leave tombstones.
unfoldable pub replace_other_device_profiles :
    Vault → String → ℕ → DeviceProfile → List DeviceProfile → Vault
unfolding set_of
replace_other_device_profiles vault current_device_id deleted_at current [] = vault
replace_other_device_profiles vault current_device_id deleted_at current (p ∷ ps) =
    let removed = p ∷ ps in
    let removed_ids = set_of (ids device_profile_item removed) in
    record vault {
      version_vector = increment_version_vector vault.version_vector current_device_id;
      device_profiles = current ∷ [];
      deleted_device_profiles =
          filter (λ deleted. not (contains removed_ids deleted.id)) vault.deleted_device_profiles
          ++ map (tombstone current_device_id deleted_at) removed;
    }

unfoldable pub remove_other_device_profiles_from_vault : Vault → String → ℕ → Vault
unfolding replace_other_device_profiles
remove_other_device_profiles_from_vault vault current_device_id deleted_at =
    elim (find_id device_profile_item current_device_id vault.device_profiles) [
      | none ↦ vault
      | some current ↦
          replace_other_device_profiles vault current_device_id deleted_at current
            (without_id device_profile_item current_device_id vault.device_profiles)
    ]

unfoldable pub revoke_device_profile_from_vault : Vault → String → String → ℕ → Vault
revoke_device_profile_from_vault vault revoking_device_id revoked_device_id deleted_at =
    elim (find_id device_profile_item revoked_device_id vault.device_profiles) [
      | none ↦ vault
      | some revoked ↦ record vault {
        version_vector = increment_version_vector vault.version_vector revoking_device_id;
        device_profiles = without_id device_profile_item revoked_device_id vault.device_profiles;
        deleted_device_profiles =
            without_id deleted_item revoked_device_id vault.deleted_device_profiles
            ++ (record {
              id = revoked_device_id;
              version_vector = increment_version_vector revoked.version_vector revoking_device_id;
              deleted_at = deleted_at;
            })
              ∷ [];
      }
    ]
