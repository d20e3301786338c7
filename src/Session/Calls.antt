-- ===== src/Session/Calls.antt =====
-- The calls of `UnlockedVaultSessionService`. A field of the service is what was last written to it,
-- so writes stand among the events, and a read is a function of what happened before.
use engr_serverless_pm.Base.{ℕ, String, Bool, Option, List, [], ◌∷◌, suc, Result, ok}
use engr_serverless_pm.Base.Effects.{Effect, call}
use engr_serverless_pm.Versioning.{VersionVector}
use engr_serverless_pm.Snapshot.{Bytes, SerializedEncrypted}
use engr_serverless_pm.Vault.{Vault}
use engr_serverless_pm.Session.Types.{
  UnlockedVaultSessionMaterial, EncryptedUnlockedVaultSessionPayload,
}

-- `PersistedUnlockedVaultSessionIdentity`, and the context that a payload is encrypted in
pub record SessionIdentity : Type 0 where
  pub session_id : String
  pub vault_id : String
  pub source_snapshot_version_vector : VersionVector

pub data SessionInvalidationState : Type 0 where
  not_invalidated : SessionInvalidationState
  known : String → SessionInvalidationState
  unknown : Bool → SessionInvalidationState

pub data Event : Type 0 where
  generation_advanced : Event
  invalidation_set : SessionInvalidationState → Event
  material_wiped : UnlockedVaultSessionMaterial → Event
  replaced_material_wiped : UnlockedVaultSessionMaterial → UnlockedVaultSessionMaterial → Event
  key_wiped : Bytes → Event
  exclusive_entered : Result (Unit {0}) → Event
  exclusive_left : Result (Unit {0}) → Event
  epoch_read : Result ℕ → Event
  epoch_advanced : Result (Unit {0}) → Event
  identity_read : Result (Option SessionIdentity) → Event
  material_read : Result (Option UnlockedVaultSessionMaterial) → Event
  material_saved : UnlockedVaultSessionMaterial → Result (Unit {0}) → Event
  material_evicted : Option String → Result (Unit {0}) → Event
  material_removed : Result (Unit {0}) → Event
  payload_read : Result (Option EncryptedUnlockedVaultSessionPayload) → Event
  payload_saved : EncryptedUnlockedVaultSessionPayload → Result (Unit {0}) → Event
  payload_removed : Result (Unit {0}) → Event
  id_generated : Result String → Event
  key_generated : Result Bytes → Event
  payload_encrypted : Vault → Bytes → SessionIdentity → Result SerializedEncrypted → Event
  payload_decrypted : SerializedEncrypted → Bytes → SessionIdentity → Result Vault → Event
  -- A callback that the caller gives, by its name.
  called_back : String → Result (Unit {0}) → Event

-- What answers a call, by all that happened before it.
pub record Environment : Type 0 where
  pub is_lease_active : List Event → Bool
  pub enter_exclusive : List Event → Result (Unit {0})
  pub leave_exclusive : List Event → Result (Unit {0})
  pub get_epoch : List Event → Result ℕ
  pub advance_epoch : List Event → Result (Unit {0})
  pub get_identity : List Event → Result (Option SessionIdentity)
  pub get_material : List Event → Result (Option UnlockedVaultSessionMaterial)
  pub save_material : List Event → UnlockedVaultSessionMaterial → Result (Unit {0})
  pub evict_material : List Event → Option String → Result (Unit {0})
  pub remove_material : List Event → Result (Unit {0})
  pub get_payload : List Event → Result (Option EncryptedUnlockedVaultSessionPayload)
  pub save_payload : List Event → EncryptedUnlockedVaultSessionPayload → Result (Unit {0})
  pub remove_payload : List Event → Result (Unit {0})
  pub generate_id : List Event → Result String
  pub generate_key : List Event → Result Bytes
  pub encrypt_payload : List Event → Vault → Bytes → SessionIdentity → Result SerializedEncrypted
  pub decrypt_payload : List Event → SerializedEncrypted → Bytes → SessionIdentity → Result Vault
  pub call_back : List Event → String → Result (Unit {0})

abbrev pub Coordinated : Type 0 → Type 0
Coordinated A = Effect Event A

-- `activationGeneration`, 0 at first
abbrev pub generation_of : List Event → ℕ
generation_of [] = 0
generation_of (generation_advanced ∷ h) = suc (generation_of h)
generation_of (_ ∷ h) = generation_of h

-- `invalidationState`
abbrev pub invalidation_of : List Event → SessionInvalidationState
invalidation_of [] = not_invalidated
invalidation_of (invalidation_set state ∷ h) = state
invalidation_of (_ ∷ h) = invalidation_of h

abbrev pub activation_generation : Coordinated ℕ
activation_generation h = (ok (generation_of h), [])

abbrev pub invalidation_state : Coordinated SessionInvalidationState
invalidation_state h = (ok (invalidation_of h), [])

abbrev pub emit : Event → Coordinated (Unit {0})
emit e h = (ok tt, e ∷ [])

module _ (env : Environment) where
  abbrev pub lease_active : Coordinated Bool
  lease_active h = (ok (env.is_lease_active h), [])

  abbrev pub enter_exclusive : Coordinated (Unit {0})
  enter_exclusive = call (λ h. env.enter_exclusive h) exclusive_entered

  abbrev pub leave_exclusive : Coordinated (Unit {0})
  leave_exclusive = call (λ h. env.leave_exclusive h) exclusive_left

  abbrev pub advance_epoch : Coordinated (Unit {0})
  advance_epoch = call (λ h. env.advance_epoch h) epoch_advanced

  abbrev pub remove_material : Coordinated (Unit {0})
  remove_material = call (λ h. env.remove_material h) material_removed

  abbrev pub remove_payload : Coordinated (Unit {0})
  remove_payload = call (λ h. env.remove_payload h) payload_removed

  abbrev pub get_epoch : Coordinated ℕ
  get_epoch = call (λ h. env.get_epoch h) epoch_read

  abbrev pub get_identity : Coordinated (Option SessionIdentity)
  get_identity = call (λ h. env.get_identity h) identity_read

  abbrev pub get_material : Coordinated (Option UnlockedVaultSessionMaterial)
  get_material = call (λ h. env.get_material h) material_read

  abbrev pub save_material : UnlockedVaultSessionMaterial → Coordinated (Unit {0})
  save_material m = call (λ h. env.save_material h m) (material_saved m)

  abbrev pub evict_material : Option String → Coordinated (Unit {0})
  evict_material id = call (λ h. env.evict_material h id) (material_evicted id)

  abbrev pub get_payload : Coordinated (Option EncryptedUnlockedVaultSessionPayload)
  get_payload = call (λ h. env.get_payload h) payload_read

  abbrev pub save_payload : EncryptedUnlockedVaultSessionPayload → Coordinated (Unit {0})
  save_payload p = call (λ h. env.save_payload h p) (payload_saved p)

  abbrev pub generate_id : Coordinated String
  generate_id = call (λ h. env.generate_id h) id_generated

  abbrev pub generate_key : Coordinated Bytes
  generate_key = call (λ h. env.generate_key h) key_generated

  abbrev pub encrypt_payload : Vault → Bytes → SessionIdentity → Coordinated SerializedEncrypted
  encrypt_payload v k c = call (λ h. env.encrypt_payload h v k c) (payload_encrypted v k c)

  abbrev pub decrypt_payload : SerializedEncrypted → Bytes → SessionIdentity → Coordinated Vault
  decrypt_payload e k c = call (λ h. env.decrypt_payload h e k c) (payload_decrypted e k c)

  abbrev pub call_back : String → Coordinated (Unit {0})
  call_back name = call (λ h. env.call_back h name) (called_back name)
