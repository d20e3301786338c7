-- ===== src/Vault/History/Invariant.antt =====
-- Whatever the devices do, a vault stays valid, its folders a tree, and its vector never goes down.
use engr_serverless_pm.Base.{String, Result, OnOk, OnOk-map, OnOk-zip, OnOk-ok, arith}
use engr_serverless_pm.Versioning.Order.{AtMost}
use engr_serverless_pm.Vault.{Vault}
use engr_serverless_pm.Vault.Validity.{IsValid}
use engr_serverless_pm.Vault.Validity.Entries.{
  add_password_entry-IsValid, update_password_entry-IsValid, remove_password_entry-IsValid,
}
use engr_serverless_pm.Vault.Validity.Tags.{add_tag-IsValid, update_tag-IsValid, remove_tag-IsValid}
use engr_serverless_pm.Vault.Validity.Folders.{
  add_folder-IsValid, update_folder-IsValid, move_folder-IsValid, remove_folder-IsValid,
}
use engr_serverless_pm.Vault.Validity.Devices.{
  add_device_profile-IsValid, revoke_device_profile-IsValid, remove_other_device_profiles-IsValid,
}
use engr_serverless_pm.Vault.Tree.Kept.{IsTree}
use engr_serverless_pm.Vault.Tree.Mutations.{
  add_folder-IsTree, update_folder-IsTree, move_folder-IsTree, remove_folder-IsTree,
}
use engr_serverless_pm.Vault.History.{Mutation, perform, Reachable}
use engr_serverless_pm.Vault.History.Steps.{
  Grows, Keeps, add_entry-Keeps, update_entry-Keeps, remove_entry-Keeps, add_tag-Keeps,
  update_tag-Keeps, remove_tag-Keeps, add_device-Keeps, revoke_device-Keeps,
  remove_other_devices-Keeps, add_folder-Grows, update_folder-Grows, move_folder-Grows,
  remove_folder-Grows,
}

-- The vault is valid, its folders are a tree, and no count is lower than in the first one.
pub record IsSane (first vault : Vault) : Type 0 where
  pub valid : IsValid vault
  pub tree : IsTree vault.folders
  pub grown : AtMost first.version_vector vault.version_vector

IsSane-of_Keeps :
    (vault after : Vault)
    → IsTree vault.folders
    → IsValid after × Keeps vault after
    → IsSane vault after
IsSane-of_Keeps vault after tree (valid, (same, grown)) = record {
  valid = valid;
  tree = rw same tree;
  grown = grown;
}

module _ (vault : Vault) (tree : IsTree vault.folders) where
  kept : (m : Result Vault) → OnOk IsValid m → OnOk (Keeps vault) m → OnOk (IsSane vault) m
  kept m valid keeps =
      OnOk-map {P = λ a. IsValid a × Keeps vault a} (λ after. IsSane-of_Keeps vault after tree) m
        (OnOk-zip IsValid (Keeps vault) m valid keeps)

  grown :
      (m : Result Vault)
      → OnOk IsValid m
      → OnOk (λ after. IsTree after.folders) m
      → OnOk (Grows vault) m
      → OnOk (IsSane vault) m
  grown m valid trees grows =
      OnOk-map {P = λ a. IsValid a × (IsTree a.folders × Grows vault a)} {Q = IsSane vault}
        (λ after h. record { valid = h.0; tree = h.1.0; grown = h.1.1 }) m
        (OnOk-zip IsValid (λ a. IsTree a.folders × Grows vault a) m valid
          (OnOk-zip (λ a. IsTree a.folders) (Grows vault) m trees grows))

module _ (normalized_name : String → String) where
  perform-IsSane :
      (vault : Vault) (m : Mutation)
      → IsValid vault
      → IsTree vault.folders
      → OnOk (IsSane vault) (perform normalized_name vault m)
  unfolding perform
  perform-IsSane vault (Mutation.add_entry i input d) s t =
      kept vault t _ (add_password_entry-IsValid vault i input d s)
        (add_entry-Keeps vault i input d)
  perform-IsSane vault (Mutation.update_entry i input d) s t =
      IsSane-of_Keeps vault _ t
        (update_password_entry-IsValid vault i input d s, update_entry-Keeps vault i input d)
  perform-IsSane vault (Mutation.remove_entry i d at) s t =
      IsSane-of_Keeps vault _ t
        (remove_password_entry-IsValid vault i d at s, remove_entry-Keeps vault i d at)
  perform-IsSane vault (Mutation.add_tag input d) s t =
      kept vault t _ (add_tag-IsValid normalized_name vault input d s)
        (add_tag-Keeps normalized_name vault input d)
  perform-IsSane vault (Mutation.update_tag i input d) s t =
      kept vault t _ (update_tag-IsValid normalized_name vault i input d s)
        (update_tag-Keeps normalized_name vault i input d)
  perform-IsSane vault (Mutation.remove_tag i d at) s t =
      kept vault t _ (remove_tag-IsValid vault i d at s) (remove_tag-Keeps vault i d at)
  perform-IsSane vault (Mutation.add_folder input d) s t =
      grown vault t _ (add_folder-IsValid normalized_name vault input d s)
        (add_folder-IsTree normalized_name vault input d t)
        (add_folder-Grows normalized_name vault input d)
  perform-IsSane vault (Mutation.update_folder i input d) s t =
      grown vault t _ (update_folder-IsValid normalized_name vault i input d s)
        (update_folder-IsTree normalized_name vault i input d s t)
        (update_folder-Grows normalized_name vault i input d)
  perform-IsSane vault (Mutation.move_folder i parent d) s t =
      grown vault t _ (move_folder-IsValid normalized_name vault i parent d s)
        (move_folder-IsTree normalized_name vault i parent d s t)
        (move_folder-Grows normalized_name vault i parent d)
  perform-IsSane vault (Mutation.remove_folder i d at) s t =
      grown vault t _ (remove_folder-IsValid vault i d at s) (remove_folder-IsTree vault i d at t)
        (remove_folder-Grows vault i d at)
  perform-IsSane vault (Mutation.add_device i name at) s t =
      kept vault t _ (add_device_profile-IsValid vault i name at s)
        (add_device-Keeps vault i name at)
  perform-IsSane vault (Mutation.revoke_device i d at) s t =
      IsSane-of_Keeps vault _ t
        (revoke_device_profile-IsValid vault d i at s, revoke_device-Keeps vault d i at)
  perform-IsSane vault (Mutation.remove_other_devices d at) s t =
      IsSane-of_Keeps vault _ t
        (remove_other_device_profiles-IsValid vault d at s, remove_other_devices-Keeps vault d at)

  -- Every vault that mutations reach from a valid one whose folders are a tree is valid too, its
  -- folders are a tree, and its vector counts no device lower than the first one's.
  pub Reachable-IsSane :
      (first vault : Vault)
      → IsValid first
      → IsTree first.folders
      → Reachable normalized_name first vault
      → IsSane first vault
  Reachable-IsSane first vault s t Reachable.here = record {
    valid = s;
    tree = t;
    grown = λ d. omega arith;
  }
  Reachable-IsSane first after s t (Reachable.step {vault = vault} path m e) =
      let before = Reachable-IsSane first vault s t path in
      let now =
        OnOk-ok (IsSane vault) (perform normalized_name vault m) after
          (perform-IsSane vault m before.valid before.tree) e in
      record {
        valid = now.valid;
        tree = now.tree;
        grown = λ d. omega (arith, before.grown d, now.grown d);
      }
