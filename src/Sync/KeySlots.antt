-- ===== src/Sync/KeySlots.antt =====
-- packages/core/src/domain/sync/key-slot-review.utils.ts: how the devices' key slots of two snapshots
-- differ.
pub mod Maps
pub mod Changes
pub mod Exact
use engr_serverless_pm.Base.{
  ℕ, String, Bool, true, false, not, ◌&&◌, ◌||◌, Option, none, some, List, [], ◌∷◌, map, Result, ok,
  err, ◌>>=◌, invalid_vault_sync_review, duplicated_key_slot, missing_key_slot, if◌then◌else◌, ◌==◌,
  nat_eq, ltb, length, filter, Map, map_get, map_set, map_has,
}
use engr_serverless_pm.Snapshot.{Bytes, SerializedEncrypted, DeviceVaultKeyEnvelope, DeviceKeySlot}

pub record KeySlotDeviceSlotsChanges : Type 0 where
  pub added_device_ids : List String
  pub removed_device_ids : List String
  pub changed_device_ids : List String

pub record ChangedDeviceKeySlot : Type 0 where
  pub device_id : String
  pub local_device_slot : DeviceKeySlot
  pub remote_device_slot : DeviceKeySlot

pub record KeySlotReviewItem : Type 0 where
  pub device_slots : KeySlotDeviceSlotsChanges
  pub has_changes : Bool

-- What a review gives; `changed_key_slots` stands for a `ChangedDeviceKeySlotsError` thrown.
pub data KeySlotReview : Type 0 where
  reviewed : KeySlotReviewItem → KeySlotReview
  changed_key_slots : List ChangedDeviceKeySlot → KeySlotReview

-- `areArrayBuffersEqual` of packages/core/src/domain/common/array-buffer.utils.ts
unfoldable pub are_array_buffers_equal : Bytes → Bytes → Bool
are_array_buffers_equal [] [] = true
are_array_buffers_equal (a ∷ left) (b ∷ right) = nat_eq a b && are_array_buffers_equal left right
are_array_buffers_equal _ _ = false

abbrev encrypted_json_equal : SerializedEncrypted → SerializedEncrypted → Bool
encrypted_json_equal a b = a.ciphertext == b.ciphertext && a.encryption_nonce == b.encryption_nonce

unfoldable pub are_device_slots_equal : DeviceKeySlot → DeviceKeySlot → Bool
unfolding are_array_buffers_equal
are_device_slots_equal local remote =
    local.device_id == remote.device_id
    && nat_eq local.vault_key_generation remote.vault_key_generation
    && local.envelope.recipient_device_id == remote.envelope.recipient_device_id
    && nat_eq local.envelope.vault_key_generation remote.envelope.vault_key_generation
    && are_array_buffers_equal local.envelope.ephemeral_public_key
        remote.envelope.ephemeral_public_key
    && are_array_buffers_equal local.envelope.hkdf_salt remote.envelope.hkdf_salt
    && encrypted_json_equal local.envelope.encrypted_vault_master_key
        remote.envelope.encrypted_vault_master_key

-- the loop of `createDeviceSlotMap`
unfoldable pub create_device_slot_map_from :
    Map DeviceKeySlot → List DeviceKeySlot → Result (Map DeviceKeySlot)
unfolding map_set map_has
create_device_slot_map_from by_id [] = ok by_id
create_device_slot_map_from by_id (slot ∷ slots) =
    let rest = create_device_slot_map_from (map_set by_id slot.device_id slot) slots in
    if map_has by_id slot.device_id
    then err (invalid_vault_sync_review (duplicated_key_slot slot.device_id))
    else rest

unfoldable pub create_device_slot_map : List DeviceKeySlot → Result (Map DeviceKeySlot)
unfolding create_device_slot_map_from
create_device_slot_map = create_device_slot_map_from []

abbrev pub map_keys : Map DeviceKeySlot → List String
map_keys = map (λ e. e.0)

-- The identifiers of the slots of `by_id` that `other` does not have: added ones and removed ones.
abbrev pub absent_from : Map DeviceKeySlot → Map DeviceKeySlot → List String
absent_from other by_id = filter (λ d. not (map_has other d)) (map_keys by_id)

-- The local slots that the remote side has with other contents.
unfoldable pub changed_from : Map DeviceKeySlot → Map DeviceKeySlot → List String
unfolding map_get are_device_slots_equal
changed_from remote_by_id [] = []
changed_from remote_by_id ((d, local) ∷ local_by_id) =
    let rest = changed_from remote_by_id local_by_id in
    elim (map_get remote_by_id d) [
      | none ↦ rest
      | some remote ↦ if not (are_device_slots_equal local remote) then d ∷ rest else rest
    ]

unfoldable pub find_device_slot_changes :
    List DeviceKeySlot → List DeviceKeySlot → Result KeySlotDeviceSlotsChanges
unfolding create_device_slot_map changed_from map_has
find_device_slot_changes local_slots remote_slots = do
  local_by_id ← create_device_slot_map local_slots
  remote_by_id ← create_device_slot_map remote_slots
  ok (record {
    added_device_ids = absent_from local_by_id remote_by_id;
    removed_device_ids = absent_from remote_by_id local_by_id;
    changed_device_ids = changed_from remote_by_id local_by_id;
  })

abbrev pub detail_of :
    String → Option DeviceKeySlot → Option DeviceKeySlot → Result ChangedDeviceKeySlot
detail_of d (some local) (some remote) =
    ok (record { device_id = d; local_device_slot = local; remote_device_slot = remote })
detail_of d _ _ = err (invalid_vault_sync_review (missing_key_slot d))

-- the `map` of `findChangedDeviceSlotsDetails`
unfoldable pub details_from :
    Map DeviceKeySlot → Map DeviceKeySlot → List String → Result (List ChangedDeviceKeySlot)
unfolding map_get
details_from local_by_id remote_by_id [] = ok []
details_from local_by_id remote_by_id (d ∷ ds) = do
  detail ← detail_of d (map_get local_by_id d) (map_get remote_by_id d)
  details ← details_from local_by_id remote_by_id ds
  ok (detail ∷ details)

unfoldable pub find_changed_device_slots_details :
    List DeviceKeySlot → List DeviceKeySlot → List String → Result (List ChangedDeviceKeySlot)
unfolding create_device_slot_map details_from
find_changed_device_slots_details local_slots remote_slots changed = do
  local_by_id ← create_device_slot_map local_slots
  remote_by_id ← create_device_slot_map remote_slots
  details_from local_by_id remote_by_id changed

abbrev pub review_of_changes : KeySlotDeviceSlotsChanges → KeySlotReview
review_of_changes changes = reviewed (record {
  device_slots = changes;
  has_changes =
      ltb 0 (length changes.added_device_ids) || ltb 0 (length changes.removed_device_ids);
})

-- What is thrown, or the review.
abbrev pub conclude :
    List DeviceKeySlot
    → List DeviceKeySlot
    → KeySlotDeviceSlotsChanges
    → List String
    → Result KeySlotReview
conclude local_slots remote_slots changes [] = ok (review_of_changes changes)
conclude local_slots remote_slots changes (d ∷ ds) = do
  details ← find_changed_device_slots_details local_slots remote_slots (d ∷ ds)
  ok (changed_key_slots details)

unfoldable pub find_changes_in_key_slots :
    List DeviceKeySlot → List DeviceKeySlot → Result KeySlotReview
unfolding find_device_slot_changes find_changed_device_slots_details
find_changes_in_key_slots local_slots remote_slots = do
  changes ← find_device_slot_changes local_slots remote_slots
  conclude local_slots remote_slots changes changes.changed_device_ids
