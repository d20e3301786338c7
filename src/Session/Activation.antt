-- ===== src/Session/Activation.antt =====
-- `UnlockedVaultSessionService`: activating a session with an authorization.
use engr_serverless_pm.Base.{
  String, Bool, not, nat_eq, Option, none, some, Result, ok, err, unlocked_vault_session_expired,
}
use engr_serverless_pm.Base.Effects.{pure, throw, attempt, ◌>>=◌, ◌>>◌}
use engr_serverless_pm.Versioning.{VersionVector}
use engr_serverless_pm.Snapshot.{Bytes, SerializedEncrypted}
use engr_serverless_pm.Session.Types.{UnlockedVault, UnlockedVaultSessionMaterial}
use engr_serverless_pm.Session.Calls.{
  SessionIdentity, SessionInvalidationState, not_invalidated, generation_advanced, invalidation_set,
  material_wiped, replaced_material_wiped, key_wiped, Environment, Coordinated,
  activation_generation, invalidation_state, emit, get_epoch, advance_epoch, save_material,
  save_payload, generate_id, generate_key, encrypt_payload, call_back,
}
use engr_serverless_pm.Session.Records.{
  Reconciled, throw_if, reconcile_active_material, remove_session_records,
  remove_session_records_preserving_root_cause, run_coordinated,
}
use engr_serverless_pm.Session.Service.{
  VaultSessionActivationAuthorization, ActivatedSession, ProtectedSession, refuse_other_vault,
  refuse_other_material, is_same_id, find_active,
}

abbrev pub wipe_replaced :
    Option UnlockedVaultSessionMaterial → UnlockedVaultSessionMaterial → Coordinated (Unit {0})
wipe_replaced none current = pure tt
wipe_replaced (some previous) current = emit (replaced_material_wiped previous current)

abbrev payload_of : UnlockedVault → SessionIdentity → Bytes → SerializedEncrypted → ProtectedSession
payload_of u context key content = record {
  material = record {
    session_id = context.session_id;
    vault_id = context.vault_id;
    source_snapshot_version_vector = context.source_snapshot_version_vector;
    device_id = u.device_id;
    vault_master_key = u.vault_master_key;
    device_private_sign_key = u.device_private_sign_key;
    device_private_vault_key = u.device_private_vault_key;
    device_local_protection_key = u.device_local_protection_key;
    payload_key = key;
    trusted_snapshot_context = u.trusted_snapshot_context;
    vault_trust_anchor = u.vault_trust_anchor;
  };
  encrypted_payload = record {
    session_id = context.session_id;
    vault_id = context.vault_id;
    source_snapshot_version_vector = context.source_snapshot_version_vector;
    content = content;
  };
}

module _ (env : Environment) where
  abbrev protect_id : Option UnlockedVaultSessionMaterial → Coordinated String
  protect_id none = generate_id env
  protect_id (some m) = pure m.session_id

  abbrev protect_key : Option UnlockedVaultSessionMaterial → Coordinated Bytes
  protect_key none = generate_key env
  protect_key (some m) = pure m.payload_key

  abbrev wipe_generated : Option UnlockedVaultSessionMaterial → Bytes → Coordinated (Unit {0})
  wipe_generated none key = emit (key_wiped key)
  wipe_generated (some m) key = pure tt

  abbrev or_wipe_generated :
      Option UnlockedVaultSessionMaterial
      → Bytes
      → Result SerializedEncrypted
      → Coordinated SerializedEncrypted
  or_wipe_generated active key (ok content) = pure content
  or_wipe_generated active key (err e) = wipe_generated active key >> throw e

  -- `protect`, for a new session or for the active one
  unfoldable pub protect :
      UnlockedVault
      → VersionVector
      → Option UnlockedVaultSessionMaterial
      → Coordinated ProtectedSession
  protect u source active = do
    id ← protect_id active
    key ← protect_key active
    let context : SessionIdentity = record {
      session_id = id;
      vault_id = u.vault_id;
      source_snapshot_version_vector = source;
    }
    reply ← attempt (encrypt_payload env u.vault key context)
    content ← or_wipe_generated active key reply
    pure (payload_of u context key content)

  unfoldable pub persist_protected_session : ProtectedSession → Coordinated (Unit {0})
  persist_protected_session p = do
    save_payload env p.encrypted_payload
    save_material env p.material

  abbrev or_remove :
      ProtectedSession
      → Option UnlockedVaultSessionMaterial
      → Result (Unit {0})
      → Coordinated (Unit {0})
  or_remove p active (ok _) = pure tt
  or_remove p active (err e) = do
    emit (material_wiped p.material)
    remove_session_records_preserving_root_cause env active
    throw e

  abbrev before_activation : Option String → Coordinated (Unit {0})
  before_activation none = pure tt
  before_activation (some name) = call_back env name

  abbrev pub protect_and_persist :
      UnlockedVault
      → VersionVector
      → Option UnlockedVaultSessionMaterial
      → Option String
      → Coordinated ProtectedSession
  protect_and_persist u source active callback = do
    before_activation callback
    p ← protect u source none
    saved ← attempt (persist_protected_session p)
    or_remove p active saved
    pure p

  abbrev pub start_session :
      Option UnlockedVaultSessionMaterial → ProtectedSession → Coordinated ActivatedSession
  start_session active p = do
    wipe_replaced active p.material
    emit (invalidation_set not_invalidated)
    emit generation_advanced
    generation ← activation_generation
    pure (record { session_id = p.material.session_id; generation = generation })

  unfoldable pub activate_session :
      UnlockedVault
      → VersionVector
      → Option UnlockedVaultSessionMaterial
      → Option String
      → Coordinated ActivatedSession
  unfolding protect persist_protected_session remove_session_records
  activate_session u source active callback =
      protect_and_persist u source active callback >>= start_session active

  abbrev remove_replaced :
      Option UnlockedVaultSessionMaterial → SessionInvalidationState → Coordinated (Unit {0})
  remove_replaced (some m) not_invalidated =
      remove_session_records_preserving_root_cause env (some m)
  remove_replaced _ _ = pure tt

  abbrev pub or_remove_replaced :
      Option UnlockedVaultSessionMaterial → Result ActivatedSession → Coordinated ActivatedSession
  or_remove_replaced active (ok a) = pure a
  or_remove_replaced active (err e) = do
    state ← invalidation_state
    remove_replaced active state
    throw e

  -- The part up to the epoch: whether the authorization still holds, and for which material.
  unfoldable pub use_authorization :
      VaultSessionActivationAuthorization → String → Coordinated Reconciled
  unfolding reconcile_active_material
  use_authorization authorization vault_id = do
    generation ← activation_generation
    throw_if (not (nat_eq authorization.local_generation generation))
        (unlocked_vault_session_expired vault_id)
    epoch ← get_epoch env
    throw_if (not (nat_eq authorization.shared_epoch epoch))
        (unlocked_vault_session_expired vault_id)
    (identity, found) ← find_active env
    throw_if found.reconciled (unlocked_vault_session_expired vault_id)
    refuse_other_vault identity vault_id
    throw_if (not (is_same_id identity found.material)) (unlocked_vault_session_expired vault_id)
    refuse_other_material found.material vault_id
    advance_epoch env
    pure found

  abbrev pub activate_over :
      UnlockedVault → VersionVector → Option String → Reconciled → Coordinated ActivatedSession
  activate_over u source callback found = do
    activated ← attempt (activate_session u source found.material callback)
    or_remove_replaced found.material activated

  unfoldable pub activate_within_session_operation :
      VaultSessionActivationAuthorization
      → UnlockedVault
      → VersionVector
      → Option String
      → Coordinated ActivatedSession
  unfolding use_authorization activate_session remove_session_records
  activate_within_session_operation authorization u source callback =
      use_authorization authorization u.vault_id >>= activate_over u source callback

  unfoldable pub activate :
      Bool
      → VaultSessionActivationAuthorization
      → UnlockedVault
      → VersionVector
      → Coordinated ActivatedSession
  unfolding activate_within_session_operation
  activate lease authorization u source =
      run_coordinated env lease (activate_within_session_operation authorization u source none)
