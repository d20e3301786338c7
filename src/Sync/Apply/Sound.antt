-- ===== src/Sync/Apply/Sound.antt =====
-- A resolution of two valid vaults, applied, gives a valid vault that is ahead of both.
use engr_serverless_pm.Base.{
  ◌<◌, String, ◌≡◌, refl, ◌>>◌, Result, ok, err, OnOk, OnOk-map, OnOk->>=, OnOk->>, >>=-eq-ok,
}
use engr_serverless_pm.Versioning.{local_ahead, get, max_count, compare_version_vectors}
use engr_serverless_pm.Versioning.Bounds.{stamp-ahead}
use engr_serverless_pm.Vault.{Vault}
use engr_serverless_pm.Vault.Validity.{IsValid}
use engr_serverless_pm.Vault.Organization.{require_valid_vault_organization}
use engr_serverless_pm.Vault.TagReferences.{require_valid_vault_tag_references}
use engr_serverless_pm.Sync.Apply.Merged.{IsReviewOf}
use engr_serverless_pm.Sync.Apply.Combined.{Combines, resolved-Combines}
use engr_serverless_pm.Sync.Apply.{
  VaultSyncReview, VaultSyncResolution, resolved_vault, require_same_tag_groups, require_compatible,
  catch_incompatible, apply_vault_sync_resolution,
}

-- What an applied resolution makes: a vault that combines the two sides, whose references pass their
-- checks.
pub record IsResolution (normalized_name : String → String) (local remote : Vault)
    (review : VaultSyncReview) (resolution : VaultSyncResolution) (d : String) (resolved : Vault)
    : Type 0 where
  pub combined : Combines local remote review resolution d resolved
  pub tag_references : require_valid_vault_tag_references resolved ≡ ok tt
  pub organization : require_valid_vault_organization normalized_name resolved ≡ ok tt

catch-eq-ok : (m : Result (Unit {0})) (u : Unit {0}) → catch_incompatible m ≡ ok u → m ≡ ok tt
catch-eq-ok (ok tt) u e = refl
catch-eq-ok (err e) u h = absurd (cc)

checks-eq-ok :
    (normalized_name : String → String) (vault : Vault) (u : Unit {0})
    → require_compatible normalized_name vault ≡ ok u
    → (require_valid_vault_tag_references vault ≡ ok tt)
      × (require_valid_vault_organization normalized_name vault ≡ ok tt)
checks-eq-ok normalized_name vault u e =
    let (tt, references, organized) =
      >>=-eq-ok (require_valid_vault_tag_references vault) _ (catch-eq-ok _ u e) in
    (references, organized)

module _ (normalized_name : String → String) (local remote : Vault) (review : VaultSyncReview)
    (resolution : VaultSyncResolution) (d : String) (valid : IsValid local)
    (remote_valid : IsValid remote) (shown : IsReviewOf local remote review) where
  abbrev Resolves : Vault → Type 0
  Resolves = IsResolution normalized_name local remote review resolution d

  -- A resolution of a review of two valid vaults, when it is not refused, merges the two.
  pub apply-IsResolution :
      OnOk
        (IsResolution normalized_name local remote review resolution d)
        (apply_vault_sync_resolution normalized_name local remote review resolution d)
  unfolding apply_vault_sync_resolution
  apply-IsResolution = OnOk->>= Resolves _ _ λ entry_states e. OnOk->>= Resolves _ _ λ tag_states t.
      OnOk->>= Resolves _ _ λ folder_states f. OnOk->>= Resolves _ _ λ profile_states p.
        OnOk->>= Resolves _ _ λ entries entries_built. OnOk->>= Resolves _ _ λ tags tags_built.
          OnOk->>= Resolves _ _ λ folders folders_built.
            OnOk->>= Resolves _ _ λ profiles profiles_built.
              let resolved = resolved_vault local remote entries tags folders profiles d in
              OnOk->> Resolves (require_same_tag_groups local remote)
                (require_compatible normalized_name resolved >> ok resolved)
                λ groups.
                  OnOk->> Resolves (require_compatible normalized_name resolved) (ok resolved)
                    λ checked.
                      let checks = checks-eq-ok normalized_name resolved tt checked in
                      let made : Resolves resolved = record {
                        combined =
                            resolved-Combines local remote review resolution d valid remote_valid
                              shown entry_states tag_states folder_states profile_states entries
                              tags folders profiles e t f p entries_built tags_built folders_built
                              profiles_built;
                        tag_references = checks.0;
                        organization = checks.1;
                      } in
                      made

  -- The vault that is made of two valid ones is valid.
  pub apply-IsValid :
      OnOk IsValid (apply_vault_sync_resolution normalized_name local remote review resolution d)
  apply-IsValid =
      OnOk-map {P = Resolves} {Q = IsValid}
        (λ resolved r. record {
          entries = r.combined.entries.sound;
          tags = r.combined.tags.sound;
          folders = r.combined.folders.sound;
          device_profiles = r.combined.device_profiles.sound;
        })
        _ apply-IsResolution

  -- The resolved vault's vector is ahead of both when the device has not counted up to 2^53.
  pub apply-ahead :
      get local.version_vector d < max_count
      → get remote.version_vector d < max_count
      → OnOk
          (λ resolved.
            (compare_version_vectors resolved.version_vector local.version_vector ≡ local_ahead)
            × (compare_version_vectors resolved.version_vector remote.version_vector ≡ local_ahead))
          (apply_vault_sync_resolution normalized_name local remote review resolution d)
  apply-ahead room remote_room =
      OnOk-map {P = Resolves}
        (λ resolved r.
          rw r.combined.version
            (stamp-ahead local.version_vector remote.version_vector d room remote_room))
        _ apply-IsResolution
