-- ===== src/Sync/KeySlots/Exact.antt =====
-- The review of the key slots is exact: it gives the added and the removed devices, or the devices
-- whose slots differ with both slots.
use engr_serverless_pm.Base.{
  String, ◌≡◌, ◌≢◌, refl, sym, ap, ◌∙◌, ◌↔◌, inl, inr, true, false, not, ◌&&◌, ◌||◌, Option, none,
  some, List, [], ◌∷◌, ok, arith, if◌then◌else◌, eq_iff, Bool-cases, contains, Distinct, map_get,
  length, ltb,
}
use engr_serverless_pm.Snapshot.{DeviceKeySlot}
use engr_serverless_pm.Sync.KeySlots.{
  ChangedDeviceKeySlot, KeySlotReviewItem, KeySlotReview, reviewed, changed_key_slots,
  are_device_slots_equal, absent_from, changed_from, details_from, find_device_slot_changes,
  find_changed_device_slots_details, conclude, find_changes_in_key_slots,
}
use engr_serverless_pm.Sync.KeySlots.Maps.{
  slots_equal_iff, pairs, slot_ids, slot_of, get-pairs, keys-pairs, create_map-pairs,
}
use engr_serverless_pm.Sync.KeySlots.Changes.{
  contains-absent_from, is_changed, contains-changed_from, detail_for, detail_at, detail_of-changed,
  details_from-changed,
}

-- What a review without changed slots tells of the slots `l` of the local and `r` of the remote
-- snapshot.
pub record ReviewsSlots (l r : List DeviceKeySlot) (item : KeySlotReviewItem) : Type 0 where
  pub added :
      (d : String)
      → contains item.device_slots.added_device_ids d
        ≡ (contains (slot_ids r) d && not (contains (slot_ids l) d))
  pub removed :
      (d : String)
      → contains item.device_slots.removed_device_ids d
        ≡ (contains (slot_ids l) d && not (contains (slot_ids r) d))
  pub agree :
      (d : String) (local remote : DeviceKeySlot)
      → slot_of d l ≡ some local
      → slot_of d r ≡ some remote
      → local ≡ remote
  pub noted :
      (item.has_changes ≡ false)
      ↔ ((d : String) → contains (slot_ids l) d ≡ contains (slot_ids r) d)

-- What the error tells of them: each device whose slots differ, with both slots.
pub record ReportsSlots (l r : List DeviceKeySlot) (details : List ChangedDeviceKeySlot)
    : Type 0 where
  pub some_device : (d : String) × (c : ChangedDeviceKeySlot) × (detail_for d details ≡ some c)
  pub devices :
      (d : String) (c : ChangedDeviceKeySlot)
      → (detail_for d details ≡ some c) ↔ (
          (c.device_id ≡ d)
          × (slot_of d l ≡ some c.local_device_slot)
          × (slot_of d r ≡ some c.remote_device_slot)
          × (c.local_device_slot ≢ c.remote_device_slot))

abbrev pub Explains : List DeviceKeySlot → List DeviceKeySlot → KeySlotReview → Type 0
Explains l r (reviewed item) = ReviewsSlots l r item
Explains l r (changed_key_slots details) = ReportsSlots l r details

changed-slots :
    (l r : List DeviceKeySlot) (d : String)
    → Distinct (slot_ids l)
    → contains (changed_from (pairs r) (pairs l)) d ≡ is_changed (slot_of d l) (slot_of d r)
changed-slots l r d distinct =
    contains-changed_from (pairs r) (pairs l) d (rw (keys-pairs l) distinct)
    ∙ rw (get-pairs l d, get-pairs r d)

is_changed-false : (a b : DeviceKeySlot) → is_changed (some a) (some b) ≡ false → a ≡ b
is_changed-false a b h = (slots_equal_iff a b).0 (ground (arith, h))

at-some_iff :
    (d : String) (local remote : Option DeviceKeySlot) (c : ChangedDeviceKeySlot)
    → ((if is_changed local remote then detail_at d local remote else none) ≡ some c) ↔ (
        (c.device_id ≡ d)
        × (local ≡ some c.local_device_slot)
        × (remote ≡ some c.remote_device_slot)
        × (c.local_device_slot ≢ c.remote_device_slot))
at-some_iff d none remote c = (λ h. cc, λ h. absurd (cc))
at-some_iff d (some a) none c = (λ h. cc, λ h. absurd (cc))
at-some_iff d (some a) (some b) c = elim (Bool-cases (are_device_slots_equal a b)) [
  | inl same ↦ (
    λ h. absurd (ground (arith, same, h)),
    λ (id, at_l, at_r, differ). absurd (differ (some_inj at_l at_r ((slots_equal_iff a b).0 same))),
  )
  | inr other ↦ (
    λ h.
        let at : some (record { device_id = d; local_device_slot = a; remote_device_slot = b })
            ≡ some c =
          sym (rw other) ∙ h in
        (cc, cc, cc, λ e. ground (arith, other, (slots_equal_iff a b).1 (cc))),
    λ (id, at_l, at_r, differ). rw other (cc),
  )
]
  where
    some_inj :
        some a ≡ some c.local_device_slot
        → some b ≡ some c.remote_device_slot
        → a ≡ b
        → c.local_device_slot ≡ c.remote_device_slot
    some_inj at_l at_r e = cc

none_found : (xs : List String) → ((d : String) → contains xs d ≡ false) → ltb 0 (length xs) ≡ false
none_found [] h = refl
none_found (x ∷ xs) h = absurd (ground (arith, h x, eq_iff x x))

found_nothing :
    (xs : List String) → ltb 0 (length xs) ≡ false → (d : String) → contains xs d ≡ false
found_nothing [] h d = refl
found_nothing (x ∷ xs) h d = absurd (ground (arith, h))

review-ReviewsSlots :
    (l r : List DeviceKeySlot)
    → Distinct (slot_ids l)
    → changed_from (pairs r) (pairs l) ≡ []
    → ReviewsSlots l r (record {
      device_slots = record {
        added_device_ids = absent_from (pairs l) (pairs r);
        removed_device_ids = absent_from (pairs r) (pairs l);
        changed_device_ids = changed_from (pairs r) (pairs l);
      };
      has_changes =
          ltb 0 (length (absent_from (pairs l) (pairs r)))
          || ltb 0 (length (absent_from (pairs r) (pairs l)));
    })
review-ReviewsSlots l r distinct same = record {
  added = added;
  removed = removed;
  agree =
      λ d local remote at_l at_r. is_changed-false local remote (agree d local remote at_l at_r);
  noted = (
    λ h d. ground (
      arith,
      found_nothing (absent_from (pairs l) (pairs r)) (ground (arith, h)) d,
      found_nothing (absent_from (pairs r) (pairs l)) (ground (arith, h)) d,
      added d,
      removed d,
    ),
    λ same_ids. ground (
      arith,
      none_found (absent_from (pairs l) (pairs r)) (λ d. ground (arith, added d, same_ids d)),
      none_found (absent_from (pairs r) (pairs l)) (λ d. ground (arith, removed d, same_ids d)),
    ),
  );
}
  where
    added :
        (d : String)
        → contains (absent_from (pairs l) (pairs r)) d
          ≡ (contains (slot_ids r) d && not (contains (slot_ids l) d))
    added d = contains-absent_from (pairs l) (pairs r) d ∙ rw (keys-pairs l, keys-pairs r)

    removed :
        (d : String)
        → contains (absent_from (pairs r) (pairs l)) d
          ≡ (contains (slot_ids l) d && not (contains (slot_ids r) d))
    removed d = contains-absent_from (pairs r) (pairs l) d ∙ rw (keys-pairs l, keys-pairs r)

    agree :
        (d : String) (local remote : DeviceKeySlot)
        → slot_of d l ≡ some local
        → slot_of d r ≡ some remote
        → is_changed (some local) (some remote) ≡ false
    agree d local remote at_l at_r =
        sym (changed-slots l r d distinct ∙ rw (at_l, at_r)) ∙ ap (λ ds. contains ds d) same

report-ReportsSlots :
    (l r : List DeviceKeySlot) (e : String) (ds : List String)
    → Distinct (slot_ids l)
    → changed_from (pairs r) (pairs l) ≡ e ∷ ds
    → (details : List ChangedDeviceKeySlot) × (details_from (pairs l) (pairs r) (e ∷ ds)
        ≡ ok details)
      × ReportsSlots l r details
report-ReportsSlots l r e ds distinct listed =
    let (details, made, of_all) = details_from-changed (pairs l) (pairs r) (e ∷ ds) changed in
    (
      details,
      made,
      record {
        some_device =
            let (c, _, at_c, _) =
              detail_of-changed e (map_get (pairs l) e) (map_get (pairs r) e) (changed e here) in
            (e, c, of_all e ∙ rw here at_c);
        devices = λ d c.
            rw (of_all d, at d, get-pairs l d, get-pairs r d)
              (at-some_iff d (slot_of d l) (slot_of d r) c);
      },
    )
  where
    at : (d : String) → contains (e ∷ ds) d ≡ is_changed (slot_of d l) (slot_of d r)
    at d = sym (ap (λ xs. contains xs d) listed) ∙ changed-slots l r d distinct

    here : contains (e ∷ ds) e ≡ true
    here = ground (arith, eq_iff e e)

    changed :
        (d : String)
        → contains (e ∷ ds) d ≡ true
        → is_changed (map_get (pairs l) d) (map_get (pairs r) d) ≡ true
    changed d m = rw (get-pairs l d, get-pairs r d) (sym (at d) ∙ m)

conclude-Explains :
    (l r : List DeviceKeySlot) (ds : List String)
    → Distinct (slot_ids l)
    → Distinct (slot_ids r)
    → changed_from (pairs r) (pairs l) ≡ ds
    → (review : KeySlotReview) × (conclude l r
          (record {
            added_device_ids = absent_from (pairs l) (pairs r);
            removed_device_ids = absent_from (pairs r) (pairs l);
            changed_device_ids = changed_from (pairs r) (pairs l);
          })
          ds
        ≡ ok review)
      × Explains l r review
unfolding find_changed_device_slots_details
conclude-Explains l r [] dl dr listed = (_, refl, review-ReviewsSlots l r dl listed)
conclude-Explains l r (e ∷ ds) dl dr listed =
    let (details, made, reports) = report-ReportsSlots l r e ds dl listed in
    (changed_key_slots details, rw (create_map-pairs l dl, create_map-pairs r dr, made), reports)

-- Each snapshot has one key slot for a device. Then the review of the key slots does not fail. Where no
-- device has different slots on the two sides, it gives exactly the devices that only the remote
-- side has as added and exactly those that only the local side has as removed, and notes changes
-- unless both sides have the same devices. Otherwise the error that it throws gives exactly the
-- devices whose slots differ, each with its local and its remote slot.
pub find_changes-Explains :
    (l r : List DeviceKeySlot)
    → Distinct (slot_ids l)
    → Distinct (slot_ids r)
    → (review : KeySlotReview) × (find_changes_in_key_slots l r ≡ ok review) × Explains l r review
unfolding find_changes_in_key_slots find_device_slot_changes
find_changes-Explains l r dl dr =
    let (review, made, explains) =
      conclude-Explains l r (changed_from (pairs r) (pairs l)) dl dr refl in
    (review, rw (create_map-pairs l dl, create_map-pairs r dr) made, explains)
