-- ===== src/Guard/Outcome.antt =====
-- packages/core/src/services/sync/sync-provider-outcome.policy.ts: what a provider answers is read
-- as an outcome only if it is exactly one.
pub mod Exact
use engr_serverless_pm.Base.{
  String, Bool, true, false, not, ◌&&◌, ◌||◌, Option, none, some, List, [], ◌∷◌, any, find, length,
  nat_eq, contains, Error, Result, ok, err, ◌>>=◌, ◌>>◌, if◌then◌else◌, ◌==◌,
  remote_vault_snapshot_changed, sync_provider_upload_rejected, invalid_sync_provider_outcome,
}
use engr_serverless_pm.Guard.Types.{SyncUploadStatus, complete, pending}

-- A JavaScript value, as far as the policy looks into it: a text, an object with its prototype and
-- own properties, or an object that throws when it is inspected (a proxy).
pub data Prototype : Type 0 where
  plain null_prototype other_prototype : Prototype

pub data PropertyKey : Type 0 where
  name : String → PropertyKey
  symbol : PropertyKey

pub data Property : Type 0 where
  text : String → Property
  not_text accessor : Property

pub data ProviderValue : Type 0 where
  text_value : String → ProviderValue
  object : Prototype → List (PropertyKey × Property) → ProviderValue
  throwing not_object : ProviderValue

pub data NonCommitReason : Type 0 where
  remote_snapshot_changed provider_rejected : NonCommitReason

pub data SyncUploadOutcome : Type 0 where
  committed outcome_unknown : SyncUploadOutcome
  definitely_not_committed : NonCommitReason → SyncUploadOutcome

pub data AccessOutcome : Type 0 where
  accessible authentication_rejected : AccessOutcome

unfoldable pub require_sync_provider_access_outcome : ProviderValue → Result AccessOutcome
require_sync_provider_access_outcome (text_value t) =
    if t == "accessible"
    then ok accessible
    else if t == "authentication_rejected"
    then ok authentication_rejected
    else err invalid_sync_provider_outcome
require_sync_provider_access_outcome _ = err invalid_sync_provider_outcome

abbrev is_name : String → PropertyKey → Bool
is_name k (name n) = n == k
is_name k symbol = false

-- An object that throws is refused too, by `requireSyncProviderUploadOutcome`'s handler.
unfoldable pub require_plain_record : ProviderValue → Result (List (PropertyKey × Property))
require_plain_record (object other_prototype own) = err invalid_sync_provider_outcome
require_plain_record (object _ own) = ok own
require_plain_record _ = err invalid_sync_provider_outcome

abbrev is_expected : List String → PropertyKey → Bool
is_expected expected_keys (name n) = contains expected_keys n
is_expected expected_keys symbol = false

unfoldable pub require_exact_keys : List (PropertyKey × Property) → List String → Result (Unit {0})
require_exact_keys own expected_keys =
    if not (nat_eq (length own) (length expected_keys))
      || any (λ (p : PropertyKey × Property). not (is_expected expected_keys p.0)) own
    then err invalid_sync_provider_outcome
    else ok tt

abbrev pub data_value : Option (PropertyKey × Property) → Result Property
data_value none = err invalid_sync_provider_outcome
data_value (some (k, accessor)) = err invalid_sync_provider_outcome
data_value (some (k, v)) = ok v

unfoldable pub require_data_property : List (PropertyKey × Property) → String → Result Property
require_data_property own key =
    data_value (find (λ (p : PropertyKey × Property). is_name key p.0) own)

-- `v === t`
abbrev pub is_text : Property → String → Bool
is_text (text v) t = v == t
is_text _ t = false

abbrev pub reason_of : Property → Result NonCommitReason
reason_of v =
    if is_text v "remote_snapshot_changed"
    then ok remote_snapshot_changed
    else if is_text v "provider_rejected"
    then ok provider_rejected
    else err invalid_sync_provider_outcome

abbrev pub non_commit : List (PropertyKey × Property) → Result SyncUploadOutcome
non_commit own = do
  require_exact_keys own ("status" ∷ "reason" ∷ [])
  value ← require_data_property own "reason"
  reason ← reason_of value
  ok (definitely_not_committed reason)

abbrev pub decode_status : List (PropertyKey × Property) → Property → Result SyncUploadOutcome
decode_status own status =
    if is_text status "committed"
    then require_exact_keys own ("status" ∷ []) >> ok committed
    else if is_text status "outcome_unknown"
    then require_exact_keys own ("status" ∷ []) >> ok outcome_unknown
    else if is_text status "definitely_not_committed"
    then non_commit own
    else err invalid_sync_provider_outcome

unfoldable pub decode_sync_provider_upload_outcome : ProviderValue → Result SyncUploadOutcome
unfolding require_plain_record require_exact_keys require_data_property
decode_sync_provider_upload_outcome value = do
  own ← require_plain_record value
  status ← require_data_property own "status"
  decode_status own status

-- The object that an outcome is.
abbrev pub reason_text : NonCommitReason → String
reason_text remote_snapshot_changed = "remote_snapshot_changed"
reason_text provider_rejected = "provider_rejected"

abbrev pub outcome_value : SyncUploadOutcome → ProviderValue
outcome_value committed = object plain ((name "status", text "committed") ∷ [])
outcome_value outcome_unknown = object plain ((name "status", text "outcome_unknown") ∷ [])
outcome_value (definitely_not_committed reason) = object plain (
    (name "status", text "definitely_not_committed")
    ∷ (name "reason", text (reason_text reason))
    ∷ [])

abbrev pub unknown_on_error : Result SyncUploadOutcome → SyncUploadOutcome
unknown_on_error (ok outcome) = outcome
unknown_on_error (err thrown) = outcome_unknown

-- Every error of the decoding is an `InvalidSyncProviderOutcomeError`, so each is caught.
unfoldable pub resolve_sync_provider_upload_outcome : ProviderValue → SyncUploadOutcome
unfolding decode_sync_provider_upload_outcome
resolve_sync_provider_upload_outcome value =
    unknown_on_error (decode_sync_provider_upload_outcome value)

abbrev pub definite_or_unknown : SyncUploadOutcome → SyncUploadOutcome
definite_or_unknown (definitely_not_committed reason) = definitely_not_committed reason
definite_or_unknown _ = outcome_unknown

unfoldable pub resolve_non_started_sync_provider_upload_outcome : ProviderValue → SyncUploadOutcome
unfolding resolve_sync_provider_upload_outcome
resolve_non_started_sync_provider_upload_outcome value =
    definite_or_unknown (resolve_sync_provider_upload_outcome value)

abbrev pub status_of : String → SyncUploadOutcome → Result SyncUploadStatus
status_of vault_id committed = ok complete
status_of vault_id outcome_unknown = ok pending
status_of vault_id (definitely_not_committed remote_snapshot_changed) =
    err (remote_vault_snapshot_changed vault_id)
status_of vault_id (definitely_not_committed provider_rejected) =
    err (sync_provider_upload_rejected vault_id)

unfoldable pub resolve_sync_provider_upload_status :
    String → ProviderValue → Result SyncUploadStatus
unfolding resolve_sync_provider_upload_outcome
resolve_sync_provider_upload_status vault_id value =
    status_of vault_id (resolve_sync_provider_upload_outcome value)
