-- ===== src/Vault/History/Steps.antt =====
-- What each mutation of packages/core/src/domain/vault leaves as it is: no count of the vault's
-- vector goes down, and only the folder mutations touch the folders.
use engr_serverless_pm.Base.{
  ℕ, String, ◌≡◌, refl, inl, inr, ◌||◌, Option, none, some, List, [], ◌∷◌, OnOk, OnOk->>=, arith,
  Bool-cases, Option-cases, ltb, length, filter, contains, ◌==◌,
}
use engr_serverless_pm.Versioning.Order.{AtMost}
use engr_serverless_pm.Versioning.Bounds.{AtMost-increment}
use engr_serverless_pm.Vault.{
  Vault, DeviceProfile, PasswordEntryInput, TagInput, FolderInput, entry_item, tag_item,
  folder_item, device_profile_item, find_id, some_id, without_id,
}
use engr_serverless_pm.Vault.Entries.{
  add_password_entry_to_vault, update_password_entry_in_vault, remove_password_entry_from_vault,
}
use engr_serverless_pm.Vault.Tags.{
  TagChange, require_unique_vault_tag_name, add_tag_to_vault, update_tag_in_vault,
  remove_tag_from_vault,
}
use engr_serverless_pm.Vault.Folders.{
  FolderChange, same_parent, require_folder_parent, require_folder_move_does_not_create_cycle,
  require_unique_sibling_folder_name, add_folder_to_vault, update_folder_in_vault,
  move_folder_in_vault, remove_folder_from_vault,
}
use engr_serverless_pm.Vault.Devices.{
  has_device_profile_state, add_device_profile_to_vault, revoke_device_profile_from_vault,
  replace_other_device_profiles, remove_other_device_profiles_from_vault,
}

-- No count of the vault's vector is lower than before.
abbrev pub Grows : Vault → Vault → Type 0
Grows vault after = AtMost vault.version_vector after.version_vector

-- The vault's folders are as before, and no count of its vector is lower.
abbrev pub Keeps : Vault → Vault → Type 0
Keeps vault after = (after.folders ≡ vault.folders) × Grows vault after

pub add_entry-Keeps :
    (vault : Vault) (i : String) (input : PasswordEntryInput) (d : String)
    → OnOk (Keeps vault) (add_password_entry_to_vault vault i input d)
unfolding add_password_entry_to_vault
add_entry-Keeps vault i input d = elim (Bool-cases (some_id entry_item i vault.entries)) [
  | inl known ↦ rw known tt
  | inr new ↦ rw new (refl, AtMost-increment vault.version_vector d)
]

pub update_entry-Keeps :
    (vault : Vault) (i : String) (input : PasswordEntryInput) (d : String)
    → Keeps vault (update_password_entry_in_vault vault i input d)
unfolding update_password_entry_in_vault
update_entry-Keeps vault i input d = elim (Option-cases (find_id entry_item i vault.entries)) [
  | inl absent ↦ rw (absent, update_password_entry_in_vault) (refl, λ x. omega arith)
  | inr (current, found) ↦
      rw (found, update_password_entry_in_vault) (refl, AtMost-increment vault.version_vector d)
]

pub remove_entry-Keeps :
    (vault : Vault) (i d : String) (t : ℕ)
    → Keeps vault (remove_password_entry_from_vault vault i d t)
unfolding remove_password_entry_from_vault
remove_entry-Keeps vault i d t = elim (Option-cases (find_id entry_item i vault.entries)) [
  | inl absent ↦ rw (absent, remove_password_entry_from_vault) (refl, λ x. omega arith)
  | inr (current, found) ↦
      rw (found, remove_password_entry_from_vault) (refl, AtMost-increment vault.version_vector d)
]

pub add_device-Keeps :
    (vault : Vault) (d name : String) (t : ℕ)
    → OnOk (Keeps vault) (add_device_profile_to_vault vault d name t)
unfolding add_device_profile_to_vault
add_device-Keeps vault d name t = elim (Bool-cases (has_device_profile_state vault d)) [
  | inl known ↦ rw known tt
  | inr new ↦ rw new (refl, AtMost-increment vault.version_vector d)
]

pub revoke_device-Keeps :
    (vault : Vault) (d i : String) (t : ℕ)
    → Keeps vault (revoke_device_profile_from_vault vault d i t)
unfolding revoke_device_profile_from_vault
revoke_device-Keeps vault d i t =
    elim (Option-cases (find_id device_profile_item i vault.device_profiles)) [
      | inl absent ↦ rw (absent, revoke_device_profile_from_vault) (refl, λ x. omega arith)
      | inr (current, found) ↦
          rw (found, revoke_device_profile_from_vault)
            (refl, AtMost-increment vault.version_vector d)
    ]

pub remove_other_devices-Keeps :
    (vault : Vault) (d : String) (t : ℕ)
    → Keeps vault (remove_other_device_profiles_from_vault vault d t)
unfolding remove_other_device_profiles_from_vault replace_other_device_profiles
remove_other_devices-Keeps vault d t =
    elim (Option-cases (find_id device_profile_item d vault.device_profiles)) [
      | inl absent ↦ rw (absent, remove_other_device_profiles_from_vault) (refl, λ x. omega arith)
      | inr (current, found) ↦
          rw (found, remove_other_device_profiles_from_vault)
            (replaced current (without_id device_profile_item d vault.device_profiles))
    ]
  where
    replaced :
        (current : DeviceProfile) (others : List DeviceProfile)
        → Keeps vault (replace_other_device_profiles vault d t current others)
    replaced current [] = (refl, λ x. omega arith)
    replaced current (p ∷ ps) = (refl, AtMost-increment vault.version_vector d)

module _ (normalized_name : String → String) where
  pub add_tag-Keeps :
      (vault : Vault) (input : TagInput) (d : String)
      → OnOk (Keeps vault) (add_tag_to_vault normalized_name vault input d)
  unfolding add_tag_to_vault
  add_tag-Keeps vault input d = elim (Bool-cases (some_id tag_item input.id vault.tags)) [
    | inl known ↦ rw known tt
    | inr new ↦ rw new (
        OnOk->>= (Keeps vault) (require_unique_vault_tag_name normalized_name vault input.name none)
          _ (λ _ _. (refl, AtMost-increment vault.version_vector d)))
  ]

  pub update_tag-Keeps :
      (vault : Vault) (i : String) (input : TagChange) (d : String)
      → OnOk (Keeps vault) (update_tag_in_vault normalized_name vault i input d)
  unfolding update_tag_in_vault
  update_tag-Keeps vault i input d = elim (Option-cases (find_id tag_item i vault.tags)) [
    | inl absent ↦ rw (absent, update_tag_in_vault) (refl, λ x. omega arith)
    | inr (current, found) ↦
        rw (found, update_tag_in_vault)
          (OnOk->>= (Keeps vault)
            (require_unique_vault_tag_name normalized_name vault input.name (some i)) _
            (λ _ _. (refl, AtMost-increment vault.version_vector d)))
  ]

  pub add_folder-Grows :
      (vault : Vault) (input : FolderInput) (d : String)
      → OnOk (Grows vault) (add_folder_to_vault normalized_name vault input d)
  unfolding add_folder_to_vault
  add_folder-Grows vault input d = elim (Bool-cases (some_id folder_item input.id vault.folders)) [
    | inl known ↦ rw known tt
    | inr new ↦ rw new (
        OnOk->>= (Grows vault) (require_folder_parent vault input.parent_id) _ λ _ _.
          OnOk->>= (Grows vault)
            (require_unique_sibling_folder_name normalized_name vault input.name input.parent_id
              none)
            _ (λ _ _. AtMost-increment vault.version_vector d))
  ]

  pub update_folder-Grows :
      (vault : Vault) (i : String) (input : FolderChange) (d : String)
      → OnOk (Grows vault) (update_folder_in_vault normalized_name vault i input d)
  unfolding update_folder_in_vault
  update_folder-Grows vault i input d = elim (Option-cases (find_id folder_item i vault.folders)) [
    | inl absent ↦ rw (absent, update_folder_in_vault) (λ x. omega arith)
    | inr (current, found) ↦
        rw (found, update_folder_in_vault)
          (OnOk->>= (Grows vault)
            (require_unique_sibling_folder_name normalized_name vault input.name current.parent_id
              (some i))
            _ (λ _ _. AtMost-increment vault.version_vector d))
  ]

  pub move_folder-Grows :
      (vault : Vault) (i : String) (parent_id : Option String) (d : String)
      → OnOk (Grows vault) (move_folder_in_vault normalized_name vault i parent_id d)
  unfolding move_folder_in_vault
  move_folder-Grows vault i parent_id d =
      elim (Option-cases (find_id folder_item i vault.folders)) [
        | inl absent ↦ rw (absent, move_folder_in_vault) (λ x. omega arith)
        | inr (current, found) ↦
            rw (found, move_folder_in_vault)
              (OnOk->>= (Grows vault) (require_folder_parent vault parent_id) _ λ _ _.
                OnOk->>= (Grows vault) (require_folder_move_does_not_create_cycle vault i parent_id)
                  _
                  λ _ _.
                    OnOk->>= (Grows vault)
                      (require_unique_sibling_folder_name normalized_name vault current.name
                        parent_id (some i))
                      _ (λ _ _. AtMost-increment vault.version_vector d))
      ]

pub remove_tag-Keeps :
    (vault : Vault) (i d : String) (t : ℕ) → OnOk (Keeps vault) (remove_tag_from_vault vault i d t)
unfolding remove_tag_from_vault
remove_tag-Keeps vault i d t = elim (Option-cases (find_id tag_item i vault.tags)) [
  | inl absent ↦ rw (absent, remove_tag_from_vault) (refl, λ x. omega arith)
  | inr (tag, found) ↦
      elim (Bool-cases (ltb 0 (length (filter (λ entry. contains entry.tags i) vault.entries)))) [
        | inl used ↦ rw (found, remove_tag_from_vault, used) tt
        | inr free ↦
            rw (found, remove_tag_from_vault, free) (refl, AtMost-increment vault.version_vector d)
      ]
]

pub remove_folder-Grows :
    (vault : Vault) (i d : String) (t : ℕ)
    → OnOk (Grows vault) (remove_folder_from_vault vault i d t)
unfolding remove_folder_from_vault
remove_folder-Grows vault i d t = elim (Option-cases (find_id folder_item i vault.folders)) [
  | inl absent ↦ rw (absent, remove_folder_from_vault) (λ x. omega arith)
  | inr (folder, found) ↦
      elim (Bool-cases (
        ltb 0 (length (filter (λ entry. entry.folder_id == i) vault.entries))
        || ltb 0 (length (filter (λ f. same_parent f.parent_id (some i)) vault.folders)))) [
          | inl used ↦ rw (found, remove_folder_from_vault, used) tt
          | inr free ↦
              rw (found, remove_folder_from_vault, free) (AtMost-increment vault.version_vector d)
        ]
]
