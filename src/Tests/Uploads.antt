-- ===== src/Tests/Uploads.antt =====
-- Uploads and local mutations run in concrete environments.
use engr_serverless_pm.Base.{
  ◌≡◌, refl, String, Bool, true, false, Option, none, some, [], ◌∷◌, ok, err, any,
  sync_provider_upload_rejected, sync_conflict_detected,
}
use engr_serverless_pm.Versioning.{compare_version_vectors}
use engr_serverless_pm.Snapshot.{
  SerializedEncrypted, VaultSnapshot, to_vault_snapshot_descriptor,
  are_vault_snapshot_identities_equal,
}
use engr_serverless_pm.Vault.{SyncTarget}
use engr_serverless_pm.Session.Types.{UnlockedVault}
use engr_serverless_pm.Trust.{LocalVaultTrustCheckpoint}
use engr_serverless_pm.Guard.Types.{complete, DeviceSyncCredentialState, PendingSnapshotUpload}
use engr_serverless_pm.Guard.Outcome.{
  ProviderValue, committed, definitely_not_committed, remote_snapshot_changed, provider_rejected,
  outcome_value, object, null_prototype, name, text, decode_sync_provider_upload_outcome,
  resolve_sync_provider_upload_status,
}
use engr_serverless_pm.Guard.Outcome.Exact.{Represents, decode_outcome_iff}
use engr_serverless_pm.Guard.Calls.{Environment, ready, proceed}
use engr_serverless_pm.Guard.Credentials.{has_pending}
use engr_serverless_pm.Guard.Uploads.{
  Upload, PreparedRestore, marker_of, is_start, upload_tracked_snapshot, upload_persisted_snapshot,
  retry_pending_snapshot_upload,
}
use engr_serverless_pm.Guard.Uploads.Completed.{IsCompleted, upload_tracked-IsCompleted}
use engr_serverless_pm.Guard.Uploads.Reported.{IsNotCommitted, upload_tracked-IsNotCommitted}
use engr_serverless_pm.Guard.Uploads.WrittenAhead.{IsWrittenAhead, upload_tracked-IsWrittenAhead}
use engr_serverless_pm.Guard.Uploads.RolledBack.{RollsBack, upload_persisted-RollsBack}
use engr_serverless_pm.Guard.Uploads.Retried.{Retries, retry_pending-Retries}
use engr_serverless_pm.Guard.Mutations.{LocalMutationSyncState, synced, prepare_local_mutation}
use engr_serverless_pm.Guard.Mutations.Facts.{IsReady}
use engr_serverless_pm.Guard.Mutations.Ready.{prepare-IsReady}
use engr_serverless_pm.Tests.Vaults.{laptop_1, on_laptop}

abbrev target : SyncTarget
target = record { target_config = "bucket" }

abbrev pub unlocked : UnlockedVault
unlocked = record {
  vault_id = "vault";
  device_id = "laptop";
  vault = record on_laptop { sync_target = some target; sync_removal_pending = none };
  vault_master_key = 1 ∷ [];
  device_private_sign_key = 2 ∷ [];
  device_private_vault_key = 3 ∷ [];
  device_local_protection_key = 4 ∷ [];
  trusted_snapshot_context = record {
    snapshot_digest = "digest";
    trust = record {
      generation = 1;
      vault_key_generation = 1;
      certificate_digest = "certificate";
      trusted_devices = [];
    };
  };
  vault_trust_anchor = record {
    vault_id = "vault";
    genesis_device_id = "laptop";
    genesis_public_sign_key = 5 ∷ [];
    genesis_certificate_digest = "genesis";
  };
}

abbrev encrypted : String → SerializedEncrypted
encrypted t = record { ciphertext = t; encryption_nonce = "nonce" }

abbrev snapshot : VaultSnapshot
snapshot = record {
  metadata = record {
    id = "vault";
    vault_creation_timestamp = 1;
    revision_timestamp = 2;
    snapshot_version_vector = laptop_1;
    algorithm_suite_id = "suite";
    created_by_device_id = "laptop";
    vault_key_generation = 1;
    upload_expected_remote_snapshot_identity = none;
  };
  trust_chain = [];
  device_slots =
      record {
        device_id = "laptop";
        vault_key_generation = 1;
        envelope = record {
          recipient_device_id = "laptop";
          vault_key_generation = 1;
          ephemeral_public_key = [];
          hkdf_salt = [];
          encrypted_vault_master_key = encrypted "key";
        };
      }
      ∷ [];
  content = [];
  signature = [];
}

abbrev checkpoint : LocalVaultTrustCheckpoint
checkpoint = record {
  payload = record {
    vault_id = "vault";
    device_id = "laptop";
    trust_generation = 1;
    trust_certificate_digest = "certificate";
    vault_key_generation = 1;
    snapshot_version_vector = laptop_1;
    snapshot_digest = "digest";
  };
  signature = "signature";
}

abbrev upload : Upload
upload = record {
  session_id = "session";
  vault_id = "vault";
  unlocked_vault = unlocked;
  sync_access = record { target = target; credentials = record { credentials_config = "key" } };
  persisted = record { snapshot = snapshot; snapshot_digest = "digest"; checkpoint = checkpoint };
  expected_remote = none;
}

abbrev state_with : Option PendingSnapshotUpload → DeviceSyncCredentialState
state_with p = record {
  current_credentials = record { credentials_config = "key" };
  pending_snapshot_upload = p;
  previous_credentials = none;
}

abbrev ciphertext_of : Bool → String
ciphertext_of true = "marked"
ciphertext_of false = "clear"

-- Every port answers; the stored credential state has the marker, and the provider says what is given.
abbrev answering : Option PendingSnapshotUpload → ProviderValue → Environment
answering marker answer = record {
  get_vault_snapshot = λ h v. ok (some snapshot);
  digest_vault_snapshot = λ h s. ok "digest";
  verify_snapshot = λ h v s t. ok tt;
  get_device_sync_credential_state = λ h v. ok (some (encrypted "stored"));
  decrypt_device_sync_credential_state = λ h e k c. ok (state_with marker);
  encrypt_device_sync_credential_state = λ h s k c. ok (encrypted (ciphertext_of (has_pending s)));
  save_vault_snapshot_with_checkpoint = λ h r. ok tt;
  enter_session = λ h v op. ok (record {
    session_id = "session";
    unlocked_vault = unlocked;
    source_snapshot_version_vector = laptop_1;
  });
  leave_session = λ h. ok tt;
  decide_restore = λ h s v vector. ok proceed;
  get_latest_vault_snapshot_descriptor =
      λ h a v. ok (some (to_vault_snapshot_descriptor "vault" snapshot));
  download_vault_snapshot = λ h a d. ok snapshot;
  prepare_vault_snapshot_upload = λ h a s i. ok ready;
  start_upload = λ h. ok tt;
  upload_outcome = λ h. ok answer;
  prepare_vault_snapshot_removal = λ h a v i. ok ready;
  start_removal = λ h. ok tt;
  removal_outcome = λ h. ok tt;
  algorithm_suite_id = "suite";
}

abbrev committing : Environment
committing = answering none (outcome_value committed)

abbrev rejecting : Environment
rejecting = answering none (outcome_value (definitely_not_committed provider_rejected))

completes : (upload_tracked_snapshot committing upload []).0 ≡ ok complete
unfolding upload_tracked_snapshot to_vault_snapshot_descriptor resolve_sync_provider_upload_status
completes = refl

is_rejected :
    (upload_tracked_snapshot rejecting upload []).0 ≡ err (sync_provider_upload_rejected "vault")
unfolding upload_tracked_snapshot to_vault_snapshot_descriptor resolve_sync_provider_upload_status
is_rejected = refl

is_started : any is_start (upload_tracked_snapshot committing upload []).1 ≡ true
unfolding upload_tracked_snapshot to_vault_snapshot_descriptor resolve_sync_provider_upload_status
is_started = refl

upload_tracked-IsCompleted_example :
    IsCompleted upload (upload_tracked_snapshot committing upload []).1
upload_tracked-IsCompleted_example = upload_tracked-IsCompleted committing upload [] completes

upload_tracked-IsNotCommitted_example :
    IsNotCommitted (upload_tracked_snapshot rejecting upload []).1
upload_tracked-IsNotCommitted_example =
    upload_tracked-IsNotCommitted rejecting upload [] (sync_provider_upload_rejected "vault")
      is_rejected

upload_tracked-IsWrittenAhead_example :
    IsWrittenAhead upload (upload_tracked_snapshot committing upload []).1
upload_tracked-IsWrittenAhead_example =
    upload_tracked-IsWrittenAhead committing upload [] is_started

abbrev restore : PreparedRestore
restore = record {
  snapshot = snapshot;
  checkpoint = checkpoint;
  sync_credential_state = some (encrypted "before");
}

abbrev changing : Environment
changing = answering none (outcome_value (definitely_not_committed remote_snapshot_changed))

conflicts :
    (upload_persisted_snapshot changing upload laptop_1 restore (encrypted "persisted") []).0
    ≡ err (sync_conflict_detected "vault")
unfolding upload_persisted_snapshot to_vault_snapshot_descriptor resolve_sync_provider_upload_status
conflicts = refl

upload_persisted-RollsBack_example :
    RollsBack
      (upload_persisted_snapshot changing upload laptop_1 restore (encrypted "persisted") []).0
      (upload_persisted_snapshot changing upload laptop_1 restore (encrypted "persisted") []).1
upload_persisted-RollsBack_example =
    upload_persisted-RollsBack changing upload laptop_1 restore (encrypted "persisted") []

abbrev marked : Environment
marked = answering (some (marker_of upload)) (outcome_value committed)

retries : (retry_pending_snapshot_upload marked upload (marker_of upload) []).0 ≡ ok complete
unfolding retry_pending_snapshot_upload are_vault_snapshot_identities_equal
    to_vault_snapshot_descriptor compare_version_vectors resolve_sync_provider_upload_status
retries = refl

retry_pending-Retries_example :
    Retries upload
      (marker_of upload)
      (retry_pending_snapshot_upload marked upload (marker_of upload) []).0
      (retry_pending_snapshot_upload marked upload (marker_of upload) []).1
retry_pending-Retries_example = retry_pending-Retries marked upload (marker_of upload) []

abbrev prepared : LocalMutationSyncState
prepared = synced snapshot upload.sync_access (encrypted "stored") (record {
  descriptor = to_vault_snapshot_descriptor "vault" snapshot;
  snapshot_digest = "digest";
})

prepares : (prepare_local_mutation committing "vault" unlocked laptop_1 []).0 ≡ ok prepared
unfolding prepare_local_mutation compare_version_vectors to_vault_snapshot_descriptor
prepares = refl

prepare-IsReady_example :
    IsReady committing "vault" unlocked laptop_1 prepared
      (prepare_local_mutation committing "vault" unlocked laptop_1 []).1
prepare-IsReady_example = prepare-IsReady committing "vault" unlocked laptop_1 [] prepared prepares

abbrev rejection : ProviderValue
rejection = object null_prototype (
    (name "reason", text "provider_rejected")
    ∷ (name "status", text "definitely_not_committed")
    ∷ [])

rejection_read :
    decode_sync_provider_upload_outcome rejection ≡ ok (definitely_not_committed provider_rejected)
unfolding decode_sync_provider_upload_outcome
rejection_read = refl

decode_outcome_iff_example : Represents rejection (definitely_not_committed provider_rejected)
decode_outcome_iff_example =
    (decode_outcome_iff rejection (definitely_not_committed provider_rejected)).0 rejection_read
