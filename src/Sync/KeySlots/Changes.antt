-- ===== src/Sync/KeySlots/Changes.antt =====
-- What the changed devices' list and the details of `findChangedDeviceSlotsDetails` hold.
use engr_serverless_pm.Base.{
  String, ◌≡◌, refl, sym, ◌∙◌, inl, inr, Bool, true, false, not, ◌&&◌, ◌||◌, Option, none, some,
  List, [], ◌∷◌, ok, arith, if◌then◌else◌, ◌==◌, eq_iff, Bool-cases, find, contains,
  contains-filter, Distinct, Map, map_get, map_has,
}
use engr_serverless_pm.Snapshot.{DeviceKeySlot}
use engr_serverless_pm.Sync.KeySlots.{
  ChangedDeviceKeySlot, are_device_slots_equal, map_keys, absent_from, changed_from, detail_of,
  details_from,
}

pub has-keys : (m : Map DeviceKeySlot) (d : String) → map_has m d ≡ contains (map_keys m) d
unfolding map_has map_get
has-keys [] d = refl
has-keys ((k, s) ∷ m) d = ground (arith, has-keys m d)

pub contains-absent_from :
    (other m : Map DeviceKeySlot) (d : String)
    → contains (absent_from other m) d
      ≡ (contains (map_keys m) d && not (contains (map_keys other) d))
contains-absent_from other m d =
    contains-filter (λ e. not (map_has other e)) (map_keys m) d ∙ rw (has-keys other d)

-- Both sides have the slot, with different contents.
abbrev pub is_changed : Option DeviceKeySlot → Option DeviceKeySlot → Bool
is_changed (some local) (some remote) = not (are_device_slots_equal local remote)
is_changed _ _ = false

get-none :
    (m : Map DeviceKeySlot) (d : String) → contains (map_keys m) d ≡ false → map_get m d ≡ none
unfolding map_get
get-none [] d h = refl
get-none ((k, s) ∷ m) d h = ground (arith, get-none m d)

changed-first :
    (remote m : Map DeviceKeySlot) (k : String) (s : DeviceKeySlot) (d : String)
    → contains (changed_from remote ((k, s) ∷ m)) d
      ≡ ((is_changed (some s) (map_get remote k) && (k == d)) || contains (changed_from remote m) d)
unfolding changed_from
changed-first remote m k s d = of_slot (map_get remote k)
  where
    of_slot :
        (o : Option DeviceKeySlot)
        → contains
            (elim o [
              | none ↦ changed_from remote m
              | some r ↦
                  if not (are_device_slots_equal s r)
                  then k ∷ changed_from remote m
                  else changed_from remote m
            ])
            d
          ≡ ((is_changed (some s) o && (k == d)) || contains (changed_from remote m) d)
    of_slot none = refl
    of_slot (some r) = ground arith

pub contains-changed_from :
    (remote m : Map DeviceKeySlot) (d : String)
    → Distinct (map_keys m)
    → contains (changed_from remote m) d ≡ is_changed (map_get m d) (map_get remote d)
unfolding changed_from map_get
contains-changed_from remote [] d distinct = refl
contains-changed_from remote ((k, s) ∷ m) d (once, distinct) =
    changed-first remote m k s d
    ∙ rw (contains-changed_from remote m d distinct) (elim (Bool-cases (k == d)) [
      | inl this ↦
          let same = (eq_iff k d).0 this in
          rw (this, get-none m d (rw (sym same) once), same) (ground arith)
      | inr other ↦ rw other (ground arith)
    ])

abbrev pub detail_for : String → List ChangedDeviceKeySlot → Option ChangedDeviceKeySlot
detail_for d = find (λ c. c.device_id == d)

-- What the details give for a device.
abbrev pub detail_at :
    String → Option DeviceKeySlot → Option DeviceKeySlot → Option ChangedDeviceKeySlot
detail_at d (some local) (some remote) =
    some (record { device_id = d; local_device_slot = local; remote_device_slot = remote })
detail_at d _ _ = none

pub detail_of-changed :
    (d : String) (local remote : Option DeviceKeySlot)
    → is_changed local remote ≡ true
    → (c : ChangedDeviceKeySlot) × (detail_of d local remote ≡ ok c)
      × (detail_at d local remote ≡ some c)
      × (c.device_id ≡ d)
detail_of-changed d none remote h = absurd (cc)
detail_of-changed d (some local) none h = absurd (cc)
detail_of-changed d (some local) (some remote) h = (_, refl, refl, refl)

pub details_from-changed :
    (l r : Map DeviceKeySlot) (ds : List String)
    → ((d : String) → contains ds d ≡ true → is_changed (map_get l d) (map_get r d) ≡ true)
    → (details : List ChangedDeviceKeySlot) × (details_from l r ds ≡ ok details)
      × ((d : String)
          → detail_for d details
            ≡ (if contains ds d then detail_at d (map_get l d) (map_get r d) else none))
unfolding details_from
details_from-changed l r [] changed = ([], refl, λ d. refl)
details_from-changed l r (e ∷ ds) changed =
    let (c, made, at, id) =
      detail_of-changed e (map_get l e) (map_get r e) (changed e (ground (arith, eq_iff e e))) in
    let (details, all_made, of_all) =
      details_from-changed l r ds (λ d m. changed d (ground (arith, m))) in
    (
      c ∷ details,
      rw (made, all_made),
      λ d. elim (Bool-cases (e == d)) [
        | inl this ↦ rw (id, this, sym ((eq_iff e d).0 this)) (sym at)
        | inr other ↦ rw (id, other) (of_all d)
      ],
    )
