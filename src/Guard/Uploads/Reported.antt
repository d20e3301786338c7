-- ===== src/Guard/Uploads/Reported.antt =====
-- What an upload's result tells of the provider's answer.
use engr_serverless_pm.Base.{
  String, ◌≡◌, Bool, true, false, not, ◌||◌, any, any-append, List, ◌++◌, Result, ok, err, arith,
  Error,
}
use engr_serverless_pm.Base.Traces.{Refuses, Refuses-err, Throws, Throws->>=}
use engr_serverless_pm.Guard.Types.{SyncUploadStatus, complete, pending}
use engr_serverless_pm.Guard.Outcome.{
  SyncUploadOutcome, definitely_not_committed, resolve_sync_provider_upload_outcome,
  resolve_sync_provider_upload_status,
}
use engr_serverless_pm.Guard.Calls.{Event, upload_settled, Environment}
use engr_serverless_pm.Guard.Credentials.{
  StagedIntent, StagedUpload, already_pending, staged, try_replace_sync_credential_state,
}
use engr_serverless_pm.Guard.Uploads.{
  Upload, is_start, stage_upload, perform_upload, finish_upload, upload_staged, upload_after,
  upload_tracked_snapshot,
}
use engr_serverless_pm.Guard.Uploads.Quiet.{stage_upload-Never}

abbrev is_definite : SyncUploadOutcome → Bool
is_definite (definitely_not_committed reason) = true
is_definite _ = false

-- The provider's answer is that the upload definitely did not commit.
abbrev pub tells_no_commit : Event → Bool
tells_no_commit (upload_settled (ok value)) =
    is_definite (resolve_sync_provider_upload_outcome value)
tells_no_commit _ = false

-- The upload was not started, or the provider says that it did not commit.
abbrev pub IsNotCommitted : List Event → Type 0
IsNotCommitted l = (any tells_no_commit l || not (any is_start l)) ≡ true

module _ (env : Environment) where
  pub perform-Throws : (u : Upload) (op : String) → Throws IsNotCommitted (perform_upload env u op)
  unfolding perform_upload resolve_sync_provider_upload_status
  perform-Throws u op h = ground arith

  pub finish-Throws :
      (u : Upload) (op : String) (i : StagedIntent) (s : SyncUploadStatus) (l : List Event)
      → Throws (λ k. ⊥) (finish_upload env u op i s)
  unfolding try_replace_sync_credential_state
  finish-Throws u op i complete l h = ground arith
  finish-Throws u op i pending l h = tt

  pub upload_staged-Throws :
      (u : Upload) (i : StagedIntent) → Throws IsNotCommitted (upload_staged env u i)
  unfolding upload_staged
  upload_staged-Throws u i =
      Throws->>= (λ _. Unit {0}) IsNotCommitted (perform_upload env u "start a snapshot upload") _
        (λ _. tt) (perform-Throws u "start a snapshot upload")
        (λ s l _ h. impossible _ _ _ (finish-Throws u "clear a completed snapshot upload" i s l h))
    where
      impossible :
          (Q : List Event → Type 0) (r : Result SyncUploadStatus) (k : List Event)
          → Refuses (λ _. ⊥) r k
          → Refuses Q r k
      impossible Q (ok s) k b = tt
      impossible Q (err e) k b = absurd b

  upload_tracked-Throws : (u : Upload) → Throws IsNotCommitted (upload_tracked_snapshot env u)
  unfolding upload_tracked_snapshot
  upload_tracked-Throws u =
      Throws->>= (λ l. any is_start l ≡ false) IsNotCommitted (stage_upload env u) _
        (stage_upload-Never env u) (λ h. unstarted _ _ (stage_upload-Never env u h)) next
    where
      unstarted :
          (r : Result StagedUpload) (l : List Event)
          → any is_start l ≡ false
          → Refuses IsNotCommitted r l
      unstarted (ok s) l n = tt
      unstarted (err e) l n = ground (arith, n)

      beside :
          (r : Result SyncUploadStatus) (k l : List Event)
          → any is_start l ≡ false
          → Refuses IsNotCommitted r k
          → Refuses (λ k. IsNotCommitted (k ++ l)) r k
      beside (ok s) k l n q = tt
      beside (err e) k l n q =
          rw (any-append tells_no_commit k l, any-append is_start k l, n) (ground (arith, q))

      next :
          (s : StagedUpload) (l : List Event)
          → any is_start l ≡ false
          → Throws (λ k. IsNotCommitted (k ++ l)) (upload_after env u s)
      next already_pending l n h = tt
      next (staged i) l n h = beside _ _ l n (upload_staged-Throws u i h)

  -- An upload that throws was not started, or the provider says that it did not commit.
  pub upload_tracked-IsNotCommitted :
      (u : Upload) (h : List Event) (e : Error)
      → (upload_tracked_snapshot env u h).0 ≡ err e
      → IsNotCommitted (upload_tracked_snapshot env u h).1
  upload_tracked-IsNotCommitted u h e threw =
      Refuses-err IsNotCommitted (upload_tracked_snapshot env u h).0
        (upload_tracked_snapshot env u h).1 e (upload_tracked-Throws u h) threw
