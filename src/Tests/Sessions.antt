-- ===== src/Tests/Sessions.antt =====
-- Sessions run in concrete environments.
use engr_serverless_pm.Base.{
  ◌≤◌, arith, ◌≡◌, refl, String, true, false, Option, none, some, List, [], ◌∷◌, ◌++◌, ok, err,
  unlocked_vault_session_invalid, payload_missing,
}
use engr_serverless_pm.Versioning.{compare_version_vectors}
use engr_serverless_pm.Session.Types.{
  UnlockedVaultSession, UnlockedVaultSessionMaterial, EncryptedUnlockedVaultSessionPayload,
}
use engr_serverless_pm.Session.Calls.{SessionIdentity, Event, Environment, payload_removed}
use engr_serverless_pm.Session.Records.{restore_session}
use engr_serverless_pm.Session.Service.{remove, VaultSessionActivationAuthorization, get, discarded}
use engr_serverless_pm.Session.Activation.{activate}
use engr_serverless_pm.Session.Rollbacks.{discard_if_session_is_active}
use engr_serverless_pm.Session.SingleUse.{activate-IsSingleUse}
use engr_serverless_pm.Session.Revoked.{activate-IsRevoked}
use engr_serverless_pm.Session.Discarded.{get-IsNotDiscarded}
use engr_serverless_pm.Session.FailsClosed.{IsRevoked, restore_session-IsRevoked}
use engr_serverless_pm.Tests.Uploads.{unlocked}

abbrev stored : SessionIdentity
stored = record { session_id = "s"; vault_id = "vault"; source_snapshot_version_vector = [] }

abbrev material : String → UnlockedVaultSessionMaterial
material id = record {
  session_id = id;
  vault_id = "vault";
  source_snapshot_version_vector = [];
  device_id = "laptop";
  vault_master_key = 1 ∷ [];
  device_private_sign_key = 2 ∷ [];
  device_private_vault_key = 3 ∷ [];
  device_local_protection_key = 4 ∷ [];
  payload_key = 6 ∷ [];
  trusted_snapshot_context = unlocked.trusted_snapshot_context;
  vault_trust_anchor = unlocked.vault_trust_anchor;
}

abbrev payload : String → EncryptedUnlockedVaultSessionPayload
payload id = record {
  session_id = id;
  vault_id = "vault";
  source_snapshot_version_vector = [];
  content = record { ciphertext = "c"; encryption_nonce = "n" };
}

-- Answers every call, from storage that holds what is given.
abbrev holding :
    Option SessionIdentity
    → Option UnlockedVaultSessionMaterial
    → Option EncryptedUnlockedVaultSessionPayload
    → Environment
holding identity found kept = record {
  is_lease_active = λ _. true;
  enter_exclusive = λ _. ok tt;
  leave_exclusive = λ _. ok tt;
  get_epoch = λ _. ok 7;
  advance_epoch = λ _. ok tt;
  get_identity = λ _. ok identity;
  get_material = λ _. ok found;
  save_material = λ _ _. ok tt;
  evict_material = λ _ _. ok tt;
  remove_material = λ _. ok tt;
  get_payload = λ _. ok kept;
  save_payload = λ _ _. ok tt;
  remove_payload = λ _. ok tt;
  generate_id = λ _. ok "s";
  generate_key = λ _. ok (6 ∷ []);
  encrypt_payload = λ _ _ _ _. ok (record { ciphertext = "c"; encryption_nonce = "n" });
  decrypt_payload = λ _ _ _ _. ok unlocked.vault;
  call_back = λ _ _. ok tt;
}

abbrev authorization : VaultSessionActivationAuthorization
authorization = record { local_generation = 0; shared_epoch = 7 }

abbrev empty : Environment
empty = holding none none none

activates :
    (activate empty false authorization unlocked [] []).0
    ≡ ok (record { session_id = "s"; generation = 1 })
unfolding activate
activates = refl

activate-IsSingleUse_example : ¬ (
    (activate empty false authorization unlocked []
      ([] ++ ((activate empty false authorization unlocked [] []).1 ++ []))).0
    ≡ ok (record { session_id = "s"; generation = 2 }))
activate-IsSingleUse_example =
    activate-IsSingleUse empty authorization false false unlocked unlocked [] [] [] []
      (record { session_id = "s"; generation = 1 }) (record { session_id = "s"; generation = 2 })
      activates

issued : authorization.local_generation ≤ 0
issued = omega arith

removes : (remove empty false []).0 ≡ ok tt
unfolding remove
removes = refl

activate-IsRevoked_example : ¬ (
    (activate empty true authorization unlocked [] ([] ++ ((remove empty false []).1 ++ []))).0
    ≡ ok (record { session_id = "s"; generation = 2 }))
activate-IsRevoked_example =
    activate-IsRevoked empty authorization false true unlocked [] [] []
      (record { session_id = "s"; generation = 2 }) issued removes

-- The id that storage holds: a new one, once the payload was removed.
abbrev id_after : List Event → String
id_after [] = "s"
id_after (payload_removed r ∷ h) = "t"
id_after (_ ∷ h) = id_after h

abbrev identity_of : String → SessionIdentity
identity_of id = record { session_id = id; vault_id = "vault"; source_snapshot_version_vector = [] }

-- Storage that holds a session, and another one after it was removed.
abbrev replacing : Environment
replacing = record (holding none none none) {
  get_identity = λ h. ok (some (identity_of (id_after h)));
  get_material = λ h. ok (some (material (id_after h)));
  get_payload = λ h. ok (some (payload (id_after h)));
}

abbrev discard_calls : List Event
discard_calls = (discard_if_session_is_active replacing true "s" "vault" 0 [] []).1

discards : (discard_if_session_is_active replacing true "s" "vault" 0 [] []).0 ≡ ok discarded
unfolding discard_if_session_is_active compare_version_vectors
discards = refl

abbrev other_session : UnlockedVaultSession
other_session = record {
  session_id = "t";
  unlocked_vault = unlocked;
  source_snapshot_version_vector = [];
}

reads_other : (get replacing false (discard_calls ++ [])).0 ≡ ok (some other_session)
unfolding get discard_if_session_is_active compare_version_vectors
reads_other = refl

get-IsNotDiscarded_example : ¬ (other_session.session_id ≡ "s")
get-IsNotDiscarded_example =
    get-IsNotDiscarded replacing "s" "vault" 0 [] true false [] discarded other_session discards tt
      reads_other

-- Storage that has lost the payload.
abbrev lost : Environment
lost = holding (some stored) (some (material "s")) none

cannot_restore : (restore_session lost []).0 ≡ err (unlocked_vault_session_invalid payload_missing)
unfolding restore_session compare_version_vectors
cannot_restore = refl

restore_session-IsRevoked_example : IsRevoked (restore_session lost []).1
restore_session-IsRevoked_example =
    restore_session-IsRevoked lost [] (unlocked_vault_session_invalid payload_missing)
      cannot_restore
