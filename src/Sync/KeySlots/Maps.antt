-- ===== src/Sync/KeySlots/Maps.antt =====
-- The maps that `createDeviceSlotMap` makes, and when two slots are equal.
use mathlib.Core.List.{append-nil, append_assoc}
use engr_serverless_pm.Base.{
  String, ◌≡◌, refl, sym, ap, ◌∙◌, ◌↔◌, ◌⊎◌, inl, inr, true, false, ◌||◌, Option, List, [], ◌∷◌,
  ◌++◌, map, ok, arith, ◌==◌, eq_iff, Bool-cases, find, contains, Distinct, Map, map_get, map_set,
  map_has,
}
use engr_serverless_pm.Snapshot.{Bytes, DeviceKeySlot}
use engr_serverless_pm.Sync.KeySlots.{
  are_array_buffers_equal, are_device_slots_equal, create_device_slot_map_from,
  create_device_slot_map, map_keys,
}

buffers_equal_iff : (a b : Bytes) → (are_array_buffers_equal a b ≡ true) ↔ (a ≡ b)
unfolding are_array_buffers_equal
buffers_equal_iff [] [] = (λ h. refl, λ e. refl)
buffers_equal_iff [] (y ∷ b) = (λ h. absurd (cc), λ e. absurd (cc))
buffers_equal_iff (x ∷ a) [] = (λ h. absurd (cc), λ e. absurd (cc))
buffers_equal_iff (x ∷ a) (y ∷ b) =
    let (to, from) = buffers_equal_iff a b in
    (
      λ h. let tails = to (ground (arith, h)) in ground (arith, h, tails),
      λ e. let tails : a ≡ b = cc in ground (arith, e, from tails),
    )

slots_equal_self : (s : DeviceKeySlot) → are_device_slots_equal s s ≡ true
unfolding are_device_slots_equal
slots_equal_self s = ground (
  arith,
  eq_iff s.device_id s.device_id,
  eq_iff s.envelope.recipient_device_id s.envelope.recipient_device_id,
  buffers_equal_iff s.envelope.ephemeral_public_key s.envelope.ephemeral_public_key,
  buffers_equal_iff s.envelope.hkdf_salt s.envelope.hkdf_salt,
  eq_iff s.envelope.encrypted_vault_master_key.ciphertext
      s.envelope.encrypted_vault_master_key.ciphertext,
  eq_iff s.envelope.encrypted_vault_master_key.encryption_nonce
      s.envelope.encrypted_vault_master_key.encryption_nonce,
)

-- Two slots are found equal exactly when they are.
pub slots_equal_iff : (a b : DeviceKeySlot) → (are_device_slots_equal a b ≡ true) ↔ (a ≡ b)
unfolding are_device_slots_equal
slots_equal_iff a b = (
  λ h. ground (
    arith,
    h,
    eq_iff a.device_id b.device_id,
    eq_iff a.envelope.recipient_device_id b.envelope.recipient_device_id,
    buffers_equal_iff a.envelope.ephemeral_public_key b.envelope.ephemeral_public_key,
    buffers_equal_iff a.envelope.hkdf_salt b.envelope.hkdf_salt,
    eq_iff a.envelope.encrypted_vault_master_key.ciphertext
        b.envelope.encrypted_vault_master_key.ciphertext,
    eq_iff a.envelope.encrypted_vault_master_key.encryption_nonce
        b.envelope.encrypted_vault_master_key.encryption_nonce,
  ),
  λ e. rw e (slots_equal_self b),
)

abbrev pub pairs : List DeviceKeySlot → Map DeviceKeySlot
pairs = map (λ s. (s.device_id, s))

abbrev pub slot_ids : List DeviceKeySlot → List String
slot_ids = map (λ s. s.device_id)

abbrev pub slot_of : String → List DeviceKeySlot → Option DeviceKeySlot
slot_of d = find (λ s. s.device_id == d)

pub get-pairs :
    (slots : List DeviceKeySlot) (d : String) → map_get (pairs slots) d ≡ slot_of d slots
unfolding map_get
get-pairs [] d = refl
get-pairs (s ∷ slots) d = ground (arith, get-pairs slots d)

pub keys-pairs : (slots : List DeviceKeySlot) → map_keys (pairs slots) ≡ slot_ids slots
keys-pairs [] = refl
keys-pairs (s ∷ slots) = ap (◌∷◌ s.device_id) (keys-pairs slots)

set-new :
    (m : Map DeviceKeySlot) (d : String) (s : DeviceKeySlot)
    → map_has m d ≡ false
    → map_set m d s ≡ m ++ (d, s) ∷ []
unfolding map_set map_has
set-new [] d s h = refl
set-new ((k, t) ∷ m) d s h = ground (arith, set-new m d s)

has-append :
    (m : Map DeviceKeySlot) (d : String) (s : DeviceKeySlot) (e : String)
    → map_has (m ++ (d, s) ∷ []) e ≡ (map_has m e || (d == e))
unfolding map_has map_get
has-append [] d s e = ground arith
has-append ((k, t) ∷ m) d s e = ground (arith, has-append m d s e)

create-pairs :
    (m : Map DeviceKeySlot) (slots : List DeviceKeySlot)
    → Distinct (slot_ids slots)
    → ((d : String) → map_has m d ≡ true → contains (slot_ids slots) d ≡ false)
    → create_device_slot_map_from m slots ≡ ok (m ++ pairs slots)
unfolding create_device_slot_map_from
create-pairs m [] d new = ap ok (sym (append-nil m))
create-pairs m (s ∷ slots) (once, d) new =
    let absent = lacks_first (Bool-cases (map_has m s.device_id)) in
    rw (absent, set-new m s.device_id s absent)
      (create-pairs (m ++ (s.device_id, s) ∷ []) slots d rest_new
        ∙ ap ok (append_assoc m ((s.device_id, s) ∷ []) (pairs slots)))
  where
    lacks_first :
        (map_has m s.device_id ≡ true) ⊎ (map_has m s.device_id ≡ false)
        → map_has m s.device_id ≡ false
    lacks_first (inl has) =
        absurd (ground (arith, new s.device_id has, eq_iff s.device_id s.device_id))
    lacks_first (inr h) = h

    rest_new :
        (e : String)
        → map_has (m ++ (s.device_id, s) ∷ []) e ≡ true
        → contains (slot_ids slots) e ≡ false
    rest_new e has = elim (Bool-cases (s.device_id == e)) [
      | inl this ↦ rw (sym ((eq_iff s.device_id e).0 this)) once
      | inr other ↦
          let had : map_has m e ≡ true = ground (arith, has-append m s.device_id s e, other) in
          ground (arith, new e had)
    ]

-- The map of slots with different identifiers has exactly these slots, in their order.
pub create_map-pairs :
    (slots : List DeviceKeySlot)
    → Distinct (slot_ids slots)
    → create_device_slot_map slots ≡ ok (pairs slots)
unfolding create_device_slot_map map_has map_get
create_map-pairs slots d = create-pairs [] slots d (λ e h. cc)
