-- ===== src/Session/Service.antt =====
-- `UnlockedVaultSessionService`: reading the session that is active, and removing it.
use engr_serverless_pm.Base.{
  ℕ, String, Bool, true, false, not, ◌&&◌, ◌||◌, Option, none, some, if◌then◌else◌, ◌==◌,
  active_unlocked_vault_mismatch, unlocked_vault_session_expired, vault_must_be_unlocked,
}
use engr_serverless_pm.Base.Effects.{pure, ◌>>=◌, ◌>>◌}
use engr_serverless_pm.Versioning.{VersionVector, compare_version_vectors}
use engr_serverless_pm.Snapshot.{is_equal}
use engr_serverless_pm.Session.Types.{
  UnlockedVaultSession, UnlockedVaultSessionMaterial, EncryptedUnlockedVaultSessionPayload,
}
use engr_serverless_pm.Session.Calls.{
  SessionIdentity, SessionInvalidationState, not_invalidated, generation_advanced, Environment,
  Coordinated, activation_generation, invalidation_state, emit, get_epoch, advance_epoch,
  get_identity, evict_material,
}
use engr_serverless_pm.Session.Records.{
  Reconciled, or_throw, throw_if, is_active_session, reconcile_active_material,
  revoke_authorizations_and_remove_session_records, restore_session, run_coordinated,
}

pub record VaultSessionActivationAuthorization : Type 0 where
  pub local_generation : ℕ
  pub shared_epoch : ℕ

pub record ActivatedSession : Type 0 where
  pub session_id : String
  pub generation : ℕ

pub record ProtectedSession : Type 0 where
  pub material : UnlockedVaultSessionMaterial
  pub encrypted_payload : EncryptedUnlockedVaultSessionPayload

pub data RestoreResult : Type 0 where
  restored session_advanced rollback_failed : RestoreResult

pub data DiscardResult : Type 0 where
  discarded advanced session_replaced session_unavailable discard_failed : DiscardResult

abbrev pub refuse_other_vault : Option SessionIdentity → String → Coordinated (Unit {0})
refuse_other_vault none vault_id = pure tt
refuse_other_vault (some i) vault_id =
    throw_if (not (i.vault_id == vault_id)) (active_unlocked_vault_mismatch i.vault_id vault_id)

abbrev pub refuse_other_material :
    Option UnlockedVaultSessionMaterial → String → Coordinated (Unit {0})
refuse_other_material none vault_id = pure tt
refuse_other_material (some m) vault_id =
    throw_if (not (m.vault_id == vault_id)) (active_unlocked_vault_mismatch m.vault_id vault_id)

-- `persistedIdentity?.sessionId === activeMaterial?.sessionId`
abbrev pub is_same_id : Option SessionIdentity → Option UnlockedVaultSessionMaterial → Bool
is_same_id none none = true
is_same_id (some i) (some m) = i.session_id == m.session_id
is_same_id _ _ = false

abbrev of_vault : Option UnlockedVaultSession → String → Option UnlockedVaultSession
of_vault none vault_id = none
of_vault (some s) vault_id = if s.unlocked_vault.vault_id == vault_id then some s else none

abbrev pub is_active :
    SessionInvalidationState → Option UnlockedVaultSessionMaterial → String → String → Bool
is_active state none session_id vault_id = false
is_active state (some m) session_id vault_id = is_active_session state m session_id vault_id

abbrev pub is_none : {A : Type 0} → Option A → Bool
is_none none = true
is_none (some a) = false

-- Whether an identity or a material is of the session at the version.
abbrev pub is_at : Option SessionIdentity → String → String → VersionVector → Bool
is_at none session_id vault_id source = false
is_at (some i) session_id vault_id source =
    i.session_id == session_id
    && i.vault_id == vault_id
    && is_equal (compare_version_vectors i.source_snapshot_version_vector source)

abbrev pub identity_advanced :
    Option SessionIdentity
    → Option UnlockedVaultSessionMaterial
    → String
    → String
    → VersionVector
    → Bool
identity_advanced none m session_id vault_id source = false
identity_advanced (some i) m session_id vault_id source =
    not (is_at (some i) session_id vault_id source) || is_none m

abbrev pub material_advanced :
    SessionInvalidationState
    → Option UnlockedVaultSessionMaterial
    → String
    → String
    → VersionVector
    → Bool
material_advanced state none session_id vault_id source = false
material_advanced state (some m) session_id vault_id source =
    m.vault_id == vault_id
    && (not (is_active_session state m session_id vault_id)
        || not (is_equal (compare_version_vectors m.source_snapshot_version_vector source)))

module _ (env : Environment) where
  -- Identity and material of the session that is active now.
  abbrev pub find_active : Coordinated (Option SessionIdentity × Reconciled)
  find_active = do
    identity ← get_identity env
    found ← reconcile_active_material env identity
    pure (identity, found)

  unfoldable pub require_vault_can_be_activated :
      Bool → String → Coordinated VaultSessionActivationAuthorization
  unfolding reconcile_active_material
  require_vault_can_be_activated lease vault_id = run_coordinated env lease do
    epoch ← get_epoch env
    (identity, found) ← find_active
    refuse_other_vault identity vault_id
    generation ← activation_generation
    pure (record { local_generation = generation; shared_epoch = epoch })

  unfoldable pub get : Bool → Coordinated (Option UnlockedVaultSession)
  unfolding restore_session
  get lease = run_coordinated env lease (restore_session env)

  abbrev active_vault_id :
      Option SessionIdentity → Reconciled → SessionInvalidationState → Coordinated (Option String)
  active_vault_id none found state = pure none
  active_vault_id (some i) found not_invalidated = do
    if found.reconciled then pure tt else evict_material env none
    pure (some i.vault_id)
  active_vault_id (some i) found state = pure none

  abbrev vault_id_by :
      Option UnlockedVaultSessionMaterial
      → Option SessionIdentity
      → Reconciled
      → SessionInvalidationState
      → Coordinated (Option String)
  vault_id_by (some m) identity found state = pure (some m.vault_id)
  vault_id_by none identity found state = active_vault_id identity found state

  unfoldable pub get_active_vault_id : Bool → Coordinated (Option String)
  unfolding reconcile_active_material
  get_active_vault_id lease = run_coordinated env lease do
    (identity, found) ← find_active
    state ← invalidation_state
    vault_id_by found.material identity found state

  abbrev pub run_with_unlocked_vault_context :
      {A : Type 0} → Bool → String → String → (UnlockedVaultSession → Coordinated A) → Coordinated A
  run_with_unlocked_vault_context lease vault_id operation run = run_coordinated env lease do
    found ← restore_session env
    session ← or_throw (vault_must_be_unlocked vault_id operation) (of_vault found vault_id)
    run session

  abbrev pub persist_for_active_session :
      {A : Type 0} → Bool → String → String → Coordinated A → Coordinated A
  persist_for_active_session lease session_id vault_id operation = run_coordinated env lease do
    (identity, found) ← find_active
    state ← invalidation_state
    throw_if (not (is_active state found.material session_id vault_id))
        (unlocked_vault_session_expired vault_id)
    advance_epoch env
    emit generation_advanced
    operation

  unfoldable pub remove : Bool → Coordinated (Unit {0})
  unfolding revoke_authorizations_and_remove_session_records
  remove lease =
      run_coordinated env lease (revoke_authorizations_and_remove_session_records env none)
