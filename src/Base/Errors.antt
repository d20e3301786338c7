-- ===== src/Base/Errors.antt =====
-- `throw` as a value: the `Error` classes of packages/core/src/errors that the modelled code
-- raises, with the message's cases as constructors where one class has several messages.
use Prim.Native.Nat.{ℕ}
use Prim.Native.String.{String}
use mathlib.Core.Path.{◌≡◌, refl}

-- Why a sync resolution is refused (InvalidVaultSyncResolutionError).
pub data ResolutionFault : Type 0 where
  not_required multiple_resolutions missing_resolution local_absence active_and_deleted :
      String → ResolutionFault
  incompatible_references unsupported_action : ResolutionFault

-- Why a sync review is refused (InvalidVaultSyncReviewError).
pub data ReviewFault : Type 0 where
  broken_relation both_states repeated_item trust_mismatch duplicated_key_slot missing_key_slot :
      String → ReviewFault
  tag_groups_differ : ReviewFault

-- What an invalid organization is refused for (InvalidVaultOrganizationReferenceError).
pub data OrganizationFault : Type 0 where
  invalid_identity tag_group_repeated deleted_tag_repeated tag_repeated folder_repeated :
      OrganizationFault
  missing_tag_group missing_parent missing_folder : String → OrganizationFault
  sibling_name_repeated parent_cycle : OrganizationFault

-- What an unlocked session is refused for (UnlockedVaultSessionInvalidError).
pub data SessionFault : Type 0 where
  payload_missing material_mismatch payload_older payload_undecryptable : SessionFault

pub data Error : Type 0 where
  duplicate_vault_entry duplicate_vault_tag duplicate_vault_folder : String → Error
  duplicate_vault_device_profile : String → Error
  duplicate_vault_tag_name duplicate_vault_folder_name vault_folder_cycle : Error
  vault_folder_not_found vault_tag_not_found vault_tag_group_not_found : String → Error
  vault_folder_not_empty : String → ℕ → ℕ → Error
  vault_tag_in_use : String → ℕ → Error
  invalid_vault_tag_reference : String → String → Error
  invalid_vault_organization_reference : OrganizationFault → Error
  invalid_vault_sync_resolution : ResolutionFault → Error
  invalid_vault_sync_review : ReviewFault → Error
  password_entry_changed vault_tag_changed vault_folder_changed : Error
  sync_removal_pending provider_credential_revocation_pending : String → String → Error
  local_vault_snapshot_ahead remote_vault_snapshot_ahead remote_vault_snapshot_not_found :
      String → Error
  remote_vault_snapshot_integrity remote_vault_snapshot_changed sync_conflict_detected :
      String → Error
  local_sync_credentials_missing sync_provider_upload_rejected : String → Error
  invalid_sync_provider_outcome : Error
  vault_must_be_unlocked : String → String → Error
  unlocked_vault_session_expired : String → Error
  active_unlocked_vault_mismatch : String → String → Error
  unlocked_vault_session_invalid : SessionFault → Error
  persisted_vault_rollback_incomplete : String → Error → Error
  persisted_vault_mismatch snapshot_signing_device_not_trusted : String → String → Error
  vault_snapshot_not_found vault_snapshot_version_mismatch vault_snapshot_digest_mismatch :
      String → Error
  unsupported_algorithm_suite : String → Error
  coordination_lease_inactive : Error
  -- What a port rejects with.
  rejected : String → Error

-- What a call gives, or what it throws.
pub data Result {ℓ} (X : Type ℓ) : Type ℓ where
  err : Error → Result X
  ok : X → Result X

-- A predicate on the value of a result; it holds of an error.
abbrev pub OnOk {ℓ κ} : {X : Type ℓ} → (X → Type κ) → Result X → Type κ
OnOk P (err thrown) = Unit
OnOk P (ok x) = P x

-- What comes after a call, which an exception skips.
infixl 5 ◌>>=◌
abbrev pub ◌>>=◌ {ℓ κ} : {X : Type ℓ} {Y : Type κ} → Result X → (X → Result Y) → Result Y
err thrown >>= next = err thrown
ok x >>= next = next x

-- A successful sequence of two calls, taken apart.
pub >>=-eq-ok {ℓ κ} :
    {X : Type ℓ} {Y : Type κ} (call : Result X) (next : X → Result Y) {y : Y}
    → (call >>= next) ≡ ok y
    → (x : X) × (call ≡ ok x) × (next x ≡ ok y)
>>=-eq-ok (err thrown) next done = cc
>>=-eq-ok (ok x) next done = (x, refl, done)

-- A check and what comes after it.
infixl 5 ◌>>◌
abbrev pub ◌>>◌ {κ} : {Y : Type κ} → Result (Unit {0}) → Result Y → Result Y
check >> rest = check >>= λ _. rest

pub OnOk->>= {ℓ κ μ} :
    {A : Type ℓ} {B : Type κ} (P : B → Type μ) (m : Result A) (f : A → Result B)
    → ((a : A) → m ≡ ok a → OnOk P (f a))
    → OnOk P (m >>= f)
OnOk->>= P (ok a) f h = h a refl
OnOk->>= P (err e) f h = tt

pub OnOk-map {ℓ κ μ} :
    {A : Type ℓ} {P : A → Type κ} {Q : A → Type μ}
    → ((a : A) → P a → Q a)
    → (m : Result A) → OnOk P m
    → OnOk Q m
OnOk-map f (ok a) p = f a p
OnOk-map f (err e) p = tt

pub OnOk->> {ℓ κ} :
    {B : Type ℓ} (P : B → Type κ) (m : Result (Unit {0})) (k : Result B)
    → (m ≡ ok tt → OnOk P k)
    → OnOk P (m >> k)
OnOk->> P (ok tt) k h = h refl
OnOk->> P (err e) k h = tt

pub bind_ok {ℓ κ} :
    {A : Type ℓ} {B : Type κ} (m : Result A) (f : A → Result B) (a : A) {b : B}
    → m ≡ ok a
    → f a ≡ ok b
    → (m >>= f) ≡ ok b
bind_ok (ok x) f a e h = let same : x ≡ a = cc in rw (← same) at h
bind_ok (err x) f a e h = cc

pub OnOk-zip {ℓ κ μ} :
    {A : Type ℓ} (P : A → Type κ) (Q : A → Type μ) (m : Result A)
    → OnOk P m
    → OnOk Q m
    → OnOk (λ a. P a × Q a) m
OnOk-zip P Q (ok a) p q = (p, q)
OnOk-zip P Q (err e) p q = tt

pub OnOk-ok {ℓ κ} : {A : Type ℓ} (P : A → Type κ) (m : Result A) (a : A) → OnOk P m → m ≡ ok a → P a
OnOk-ok P (ok b) a p e = let same : b ≡ a = cc in rw (← same) p
OnOk-ok P (err b) a p e = cc
