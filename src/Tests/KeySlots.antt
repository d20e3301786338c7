-- ===== src/Tests/KeySlots.antt =====
-- The key slots of two snapshots reviewed.
use engr_serverless_pm.Base.{◌≡◌, refl, String, List, [], ◌∷◌, ok, ℕ}
use engr_serverless_pm.Snapshot.{DeviceKeySlot}
use engr_serverless_pm.Sync.KeySlots.{KeySlotReview, find_changes_in_key_slots, changed_key_slots}
use engr_serverless_pm.Sync.KeySlots.Exact.{Explains, find_changes-Explains}

abbrev slot : String → ℕ → DeviceKeySlot
slot d salt = record {
  device_id = d;
  vault_key_generation = 1;
  envelope = record {
    recipient_device_id = d;
    vault_key_generation = 1;
    ephemeral_public_key = 4 ∷ 7 ∷ [];
    hkdf_salt = salt ∷ [];
    encrypted_vault_master_key = record { ciphertext = "key"; encryption_nonce = "nonce" };
  };
}

abbrev local_slots : List DeviceKeySlot
local_slots = slot "laptop" 1 ∷ slot "phone" 2 ∷ []

abbrev remote_slots : List DeviceKeySlot
remote_slots = slot "tablet" 5 ∷ slot "phone" 3 ∷ slot "laptop" 1 ∷ []

phone_reported :
    find_changes_in_key_slots local_slots remote_slots
    ≡ ok (
        changed_key_slots (
          record {
            device_id = "phone";
            local_device_slot = slot "phone" 2;
            remote_device_slot = slot "phone" 3;
          }
          ∷ []))
unfolding find_changes_in_key_slots
phone_reported = refl

find_changes-Explains_example :
    (review : KeySlotReview) × (find_changes_in_key_slots local_slots remote_slots ≡ ok review)
    × Explains local_slots remote_slots review
find_changes-Explains_example =
    find_changes-Explains local_slots remote_slots (refl, (refl, tt)) (refl, (refl, (refl, tt)))
