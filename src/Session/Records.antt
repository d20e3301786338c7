-- ===== src/Session/Records.antt =====
-- `UnlockedVaultSessionService`: reading the session's material, and removing a session's records.
use engr_serverless_pm.Base.{
  String, Bool, true, false, not, ◌&&◌, ◌||◌, Option, none, some, Error, Result, ok, err,
  if◌then◌else◌, ◌==◌, unlocked_vault_session_invalid, payload_missing, material_mismatch,
  payload_older, payload_undecryptable, coordination_lease_inactive,
}
use engr_serverless_pm.Base.Effects.{pure, throw, attempt, lift, ◌>>=◌, ◌>>◌}
use engr_serverless_pm.Versioning.{
  VersionVectorRelation, equal, local_ahead, compare_version_vectors,
}
use engr_serverless_pm.Snapshot.{is_equal}
use engr_serverless_pm.Vault.{Vault}
use engr_serverless_pm.Session.Types.{
  UnlockedVaultSession, UnlockedVaultSessionMaterial, EncryptedUnlockedVaultSessionPayload,
}
use engr_serverless_pm.Session.Calls.{
  SessionIdentity, SessionInvalidationState, not_invalidated, known, unknown, generation_advanced,
  invalidation_set, material_wiped, Environment, Coordinated, invalidation_state, emit,
  lease_active, enter_exclusive, leave_exclusive, advance_epoch, remove_material, remove_payload,
  get_identity, get_material, evict_material, get_payload, decrypt_payload,
}

pub record Reconciled : Type 0 where
  pub material : Option UnlockedVaultSessionMaterial
  pub reconciled : Bool
  pub active_session_advanced : Bool

abbrev pub or_throw : {A : Type 0} → Error → Option A → Coordinated A
or_throw e none = throw e
or_throw e (some a) = pure a

abbrev pub throw_if : Bool → Error → Coordinated (Unit {0})
throw_if true e = throw e
throw_if false e = pure tt

abbrev pub nothing_active : Reconciled
nothing_active = record { material = none; reconciled = false; active_session_advanced = false }

abbrev is_session : String → Option SessionIdentity → Bool
is_session id none = false
is_session id (some identity) = identity.session_id == id

abbrev is_absent : Option SessionIdentity → Bool
is_absent none = true
is_absent (some identity) = false

-- Whether an invalidated session still stands in the way of the persisted identity.
abbrev pub blocks : SessionInvalidationState → Option SessionIdentity → Bool
blocks not_invalidated identity = false
blocks (known id) identity = is_absent identity || is_session id identity
blocks (unknown removed) identity = is_absent identity || not removed

abbrev pub evicted_id : SessionInvalidationState → Option String
evicted_id (known id) = some id
evicted_id _ = none

abbrev is_of_session : SessionIdentity → UnlockedVaultSessionMaterial → Bool
is_of_session i m = i.session_id == m.session_id && i.vault_id == m.vault_id

abbrev same_session : Option SessionIdentity → UnlockedVaultSessionMaterial → Bool
same_session none m = false
same_session (some i) m = is_of_session i m

abbrev pub is_current_material : Option SessionIdentity → UnlockedVaultSessionMaterial → Bool
is_current_material none m = false
is_current_material (some i) m =
    is_of_session i m
    && is_equal
        (compare_version_vectors i.source_snapshot_version_vector m.source_snapshot_version_vector)

abbrev first_error : Result (Unit {0}) → Result (Unit {0}) → Result (Unit {0})
first_error (err e) later = err e
first_error (ok _) later = later

abbrev or_known : Option UnlockedVaultSessionMaterial → SessionInvalidationState
or_known none = unknown false
or_known (some m) = known m.session_id

abbrev wipe_known : Option UnlockedVaultSessionMaterial → Coordinated (Unit {0})
wipe_known none = pure tt
wipe_known (some m) = emit (invalidation_set (known m.session_id)) >> emit (material_wiped m)

-- Once the removal of the material succeeds, an unknown session's state says so.
abbrev note_removal : Result (Unit {0}) → SessionInvalidationState → Coordinated (Unit {0})
note_removal (ok _) (unknown removed) = emit (invalidation_set (unknown true))
note_removal _ state = pure tt

abbrev material_or_none :
    Result (Option UnlockedVaultSessionMaterial) → Option UnlockedVaultSessionMaterial
material_or_none (ok m) = m
material_or_none (err e) = none

abbrev read_error : Result (Option UnlockedVaultSessionMaterial) → Result (Unit {0})
read_error (ok m) = ok tt
read_error (err e) = err e

abbrev context_of : EncryptedUnlockedVaultSessionPayload → SessionIdentity
context_of p = record {
  session_id = p.session_id;
  vault_id = p.vault_id;
  source_snapshot_version_vector = p.source_snapshot_version_vector;
}

abbrev is_recent : VersionVectorRelation → Bool
is_recent equal = true
is_recent local_ahead = true
is_recent _ = false

unfoldable pub require_matching_session_records :
    UnlockedVaultSessionMaterial → EncryptedUnlockedVaultSessionPayload → Coordinated (Unit {0})
require_matching_session_records m p = do
  throw_if (not (m.session_id == p.session_id) || not (m.vault_id == p.vault_id))
      (unlocked_vault_session_invalid material_mismatch)
  throw_if
      (not (
        is_recent (
          compare_version_vectors p.source_snapshot_version_vector
            m.source_snapshot_version_vector)))
      (unlocked_vault_session_invalid payload_older)

abbrev decrypted : Result Vault → Coordinated Vault
decrypted (ok vault) = pure vault
decrypted (err e) = throw (unlocked_vault_session_invalid payload_undecryptable)

abbrev session_of :
    UnlockedVaultSessionMaterial
    → EncryptedUnlockedVaultSessionPayload
    → Vault
    → UnlockedVaultSession
session_of m p vault = record {
  session_id = m.session_id;
  unlocked_vault = record {
    vault_id = m.vault_id;
    device_id = m.device_id;
    vault = vault;
    vault_master_key = m.vault_master_key;
    device_private_sign_key = m.device_private_sign_key;
    device_private_vault_key = m.device_private_vault_key;
    device_local_protection_key = m.device_local_protection_key;
    trusted_snapshot_context = m.trusted_snapshot_context;
    vault_trust_anchor = m.vault_trust_anchor;
  };
  source_snapshot_version_vector = p.source_snapshot_version_vector;
}

-- `isActiveSession`, by the invalidation state at that time
abbrev pub is_active_session :
    SessionInvalidationState → UnlockedVaultSessionMaterial → String → String → Bool
is_active_session not_invalidated m session_id vault_id =
    m.session_id == session_id && m.vault_id == vault_id
is_active_session _ m session_id vault_id = false

module _ (env : Environment) where
  abbrev reconcile_material :
      Option SessionIdentity → Option UnlockedVaultSessionMaterial → Coordinated Reconciled
  reconcile_material identity none = pure nothing_active
  reconcile_material identity (some m) =
      if is_current_material identity m
      then pure (record { material = some m; reconciled = false; active_session_advanced = false })
      else (do
        emit (material_wiped m)
        emit generation_advanced
        emit (invalidation_set (known m.session_id))
        evict_material env (some m.session_id)
        emit (invalidation_set not_invalidated)
        pure (record {
          material = none;
          reconciled = true;
          active_session_advanced = same_session identity m;
        }))

  -- The second part, where no session is invalidated.
  unfoldable pub reconcile_valid : Option SessionIdentity → Coordinated Reconciled
  reconcile_valid identity = do material ← get_material env; reconcile_material identity material

  abbrev reconcile_by : SessionInvalidationState → Option SessionIdentity → Coordinated Reconciled
  reconcile_by not_invalidated identity = reconcile_valid identity
  reconcile_by state identity = if blocks state identity then pure nothing_active else (do
    evict_material env (evicted_id state)
    emit (invalidation_set not_invalidated)
    reconcile_valid identity)

  unfoldable pub reconcile_active_material : Option SessionIdentity → Coordinated Reconciled
  unfolding reconcile_valid
  reconcile_active_material identity = do state ← invalidation_state; reconcile_by state identity

  abbrev read_unknown :
      Option UnlockedVaultSessionMaterial
      → Coordinated (Result (Option UnlockedVaultSessionMaterial))
  read_unknown (some m) = pure (ok (some m))
  read_unknown none = attempt (get_material env)

  unfoldable pub remove_session_records :
      Option UnlockedVaultSessionMaterial → Coordinated (Unit {0})
  remove_session_records known_material = do
    emit generation_advanced
    emit (invalidation_set (or_known known_material))
    read ← read_unknown known_material
    wipe_known (material_or_none read)
    removed ← attempt (remove_material env)
    state ← invalidation_state
    note_removal removed state
    payload_removed ← attempt (remove_payload env)
    lift (first_error (first_error removed payload_removed) (read_error read))

  unfoldable pub revoke_authorizations_and_remove_session_records :
      Option UnlockedVaultSessionMaterial → Coordinated (Unit {0})
  unfolding remove_session_records
  revoke_authorizations_and_remove_session_records known_material = do
    advanced ← attempt (advance_epoch env)
    removed ← attempt (remove_session_records known_material)
    lift (first_error advanced removed)

  -- The two removals that keep the root cause.
  abbrev pub remove_session_records_preserving_root_cause :
      Option UnlockedVaultSessionMaterial → Coordinated (Unit {0})
  remove_session_records_preserving_root_cause m = do
    ignored ← attempt (remove_session_records m)
    pure tt

  abbrev pub revoke_authorizations_and_remove_session_records_preserving_root_cause :
      Option UnlockedVaultSessionMaterial → Coordinated (Unit {0})
  revoke_authorizations_and_remove_session_records_preserving_root_cause m = do
    ignored ← attempt (revoke_authorizations_and_remove_session_records m)
    pure tt

  unfoldable pub restore :
      UnlockedVaultSessionMaterial
      → EncryptedUnlockedVaultSessionPayload
      → Coordinated UnlockedVaultSession
  unfolding require_matching_session_records
  restore m p = do
    require_matching_session_records m p
    reply ← attempt (decrypt_payload env p.content m.payload_key (context_of p))
    vault ← decrypted reply
    pure (session_of m p vault)

  abbrev pub restore_from :
      Option UnlockedVaultSessionMaterial → Coordinated (Option UnlockedVaultSession)
  restore_from none = pure none
  restore_from (some m) = do
    found ← get_payload env
    payload ← or_throw (unlocked_vault_session_invalid payload_missing) found
    session ← restore m payload
    pure (some session)

  abbrev pub or_revoke :
      {A : Type 0} → Option UnlockedVaultSessionMaterial → Result A → Coordinated A
  or_revoke m (ok a) = pure a
  or_revoke m (err e) = do
    revoke_authorizations_and_remove_session_records_preserving_root_cause m
    throw e

  abbrev pub find_material : Coordinated Reconciled
  find_material = do identity ← get_identity env; reconcile_active_material identity

  abbrev pub restore_after : Result Reconciled → Coordinated (Option UnlockedVaultSession)
  restore_after (err e) = or_revoke none (err e)
  restore_after (ok found) = do
    restored ← attempt (restore_from found.material)
    or_revoke found.material restored

  unfoldable pub restore_session : Coordinated (Option UnlockedVaultSession)
  unfolding reconcile_active_material revoke_authorizations_and_remove_session_records restore
  restore_session = do found ← attempt find_material; restore_after found

  abbrev pub with_lease : {A : Type 0} → Coordinated A → Coordinated A
  with_lease operation = do
    active ← lease_active env
    throw_if (not active) coordination_lease_inactive
    operation

  -- `runCoordinatedSessionMutation`: within a lease that the caller holds, or that is acquired. The
  -- queue of `serializeSessionOperation` runs operations one after the other, as a history does.
  abbrev pub run_coordinated : {A : Type 0} → Bool → Coordinated A → Coordinated A
  run_coordinated true operation = with_lease operation
  run_coordinated false operation = do
    enter_exclusive env
    result ← attempt (with_lease operation)
    leave_exclusive env
    lift result
