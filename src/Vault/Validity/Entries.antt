-- ===== src/Vault/Validity/Entries.antt =====
-- The entry mutations of packages/core/src/domain/vault keep a vault valid.
use engr_serverless_pm.Base.{ℕ, String, refl, inl, inr, OnOk, Bool-cases, Option-cases}
use engr_serverless_pm.Versioning.Bounds.{AtMost-increment, increment-AtMost}
use engr_serverless_pm.Vault.{Vault, PasswordEntryInput, entry_item, find_id, some_id}
use engr_serverless_pm.Vault.Sound.{IsSound-add, IsSound-replace, IsSound-remove}
use engr_serverless_pm.Vault.Entries.{
  add_password_entry_to_vault, update_password_entry_in_vault, remove_password_entry_from_vault,
}
use engr_serverless_pm.Vault.Validity.{IsValid, IsValid-grow, find_covered, added_version-AtMost}

-- Adding an entry to a valid vault gives a valid vault, unless it is refused.
pub add_password_entry-IsValid :
    (vault : Vault) (i : String) (input : PasswordEntryInput) (d : String)
    → IsValid vault
    → OnOk IsValid (add_password_entry_to_vault vault i input d)
unfolding add_password_entry_to_vault
add_password_entry-IsValid vault i input d s =
    elim (Bool-cases (some_id entry_item i vault.entries)) [
      | inl e ↦ rw e tt
      | inr e ↦ rw e (
          let g = IsValid-grow vault d s in
          record {
            entries =
                IsSound-add entry_item _ _ (AtMost-increment vault.version_vector d) vault.entries
                  vault.deleted_entries _ s.entries e
                  (added_version-AtMost vault.version_vector vault.deleted_entries i d _ refl
                    s.entries.deleted_covered);
            tags = g.tags;
            folders = g.folders;
            device_profiles = g.device_profiles;
          })
    ]

-- Updating an entry keeps a vault valid.
pub update_password_entry-IsValid :
    (vault : Vault) (i : String) (input : PasswordEntryInput) (d : String)
    → IsValid vault
    → IsValid (update_password_entry_in_vault vault i input d)
unfolding update_password_entry_in_vault
update_password_entry-IsValid vault i input d s =
    elim (Option-cases (find_id entry_item i vault.entries)) [
      | inl e ↦ rw (e, update_password_entry_in_vault) s
      | inr (current, e) ↦
          let g = IsValid-grow vault d s in
          rw (e, update_password_entry_in_vault)
            (record {
              entries =
                  IsSound-replace entry_item _ _ (AtMost-increment vault.version_vector d)
                    vault.entries vault.deleted_entries i _ s.entries refl
                    (increment-AtMost current.version_vector vault.version_vector d (
                      find_covered entry_item _ vault.entries i current s.entries.active_covered
                        e));
              tags = g.tags;
              folders = g.folders;
              device_profiles = g.device_profiles;
            })
    ]

-- Removing an entry keeps a vault valid.
pub remove_password_entry-IsValid :
    (vault : Vault) (i d : String) (deleted_at : ℕ)
    → IsValid vault
    → IsValid (remove_password_entry_from_vault vault i d deleted_at)
unfolding remove_password_entry_from_vault
remove_password_entry-IsValid vault i d deleted_at s =
    elim (Option-cases (find_id entry_item i vault.entries)) [
      | inl e ↦ rw (e, remove_password_entry_from_vault) s
      | inr (entry, e) ↦
          let g = IsValid-grow vault d s in
          rw (e, remove_password_entry_from_vault)
            (record {
              entries =
                  IsSound-remove entry_item _ _ (AtMost-increment vault.version_vector d)
                    vault.entries vault.deleted_entries _ s.entries
                    (increment-AtMost entry.version_vector vault.version_vector d
                      (find_covered entry_item _ vault.entries i entry s.entries.active_covered e));
              tags = g.tags;
              folders = g.folders;
              device_profiles = g.device_profiles;
            })
    ]
