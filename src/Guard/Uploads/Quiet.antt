-- ===== src/Guard/Uploads/Quiet.antt =====
-- Which calls the parts of an upload never make.
use engr_serverless_pm.Base.{String, refl, Bool, true, false, arith}
use engr_serverless_pm.Base.Traces.{Never}
use engr_serverless_pm.Session.Types.{UnlockedVault}
use engr_serverless_pm.Guard.Types.{SyncUploadStatus, complete, pending, PendingSnapshotUpload}
use engr_serverless_pm.Guard.Calls.{Event, saved, Environment}
use engr_serverless_pm.Guard.Credentials.{
  Persisted, StagedIntent, require_sync_credential_state, stage_pending_snapshot_upload,
  try_replace_sync_credential_state, restage_pending_snapshot_upload, run_for_active_session,
  with_active_key,
}
use engr_serverless_pm.Guard.Uploads.{Upload, is_start, stage_upload, finish_upload}

abbrev pub is_save : Event → Bool
is_save (saved _ _) = true
is_save _ = false

module _ (env : Environment) where
  require-Never :
      (v : String) (u : UnlockedVault) → Never is_start (require_sync_credential_state env v u)
  unfolding require_sync_credential_state
  require-Never v u h = ground arith

  replace-Never :
      (p : Persisted) (i : StagedIntent)
      → Never is_start (try_replace_sync_credential_state env p i.pending i.clear)
  unfolding try_replace_sync_credential_state
  replace-Never p i h = ground arith

  finish-Never :
      (u : Upload) (op : String) (i : StagedIntent) (s : SyncUploadStatus)
      → Never is_start (finish_upload env u op i s)
  unfolding try_replace_sync_credential_state
  finish-Never u op i complete h = ground arith
  finish-Never u op i pending h = refl

  stage-Never :
      (v : String) (u : UnlockedVault) (p : Persisted) (m : PendingSnapshotUpload)
      → Never is_start (stage_pending_snapshot_upload env v u p m)
  unfolding stage_pending_snapshot_upload
  stage-Never v u p m h = ground arith

  pub stage_upload-Never : (u : Upload) → Never is_start (stage_upload env u)
  unfolding stage_upload
  stage_upload-Never u h = ground arith

  pub restage-Never :
      (u : Upload) (m : PendingSnapshotUpload)
      → Never is_start (
          run_for_active_session env u.session_id u.vault_id "restage a pending snapshot upload"
            λ active.
              restage_pending_snapshot_upload env u.vault_id
                (with_active_key u.unlocked_vault active)
                u.persisted
                m)
  unfolding restage_pending_snapshot_upload
  restage-Never u m h = ground arith
