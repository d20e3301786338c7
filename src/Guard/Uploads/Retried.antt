-- ===== src/Guard/Uploads/Retried.antt =====
-- What the result of a retried upload tells.
use engr_serverless_pm.Base.{
  String, ◌≡◌, refl, Bool, true, false, any, any-append, List, [], ◌∷◌, ◌++◌, Result, ok, err,
  arith, Error,
}
use engr_serverless_pm.Base.Effects.{attempt, Ensures, Ensures->>=}
use engr_serverless_pm.Base.Traces.{Gives, Refuses, InOrder, InOrder-append}
use engr_serverless_pm.Guard.Types.{
  SyncUploadStatus, complete, pending, PendingSnapshotUpload, are_pending_snapshot_uploads_equal,
}
use engr_serverless_pm.Guard.Calls.{Event, Environment}
use engr_serverless_pm.Guard.Credentials.{
  StagedIntent, RestagedIntent, try_replace_sync_credential_state,
}
use engr_serverless_pm.Guard.Uploads.{
  Upload, is_start, perform_upload, finish_upload, restore_failed, retry_after,
  retry_pending_snapshot_upload,
}
use engr_serverless_pm.Guard.Uploads.Quiet.{restage-Never}
use engr_serverless_pm.Guard.Uploads.Staged.{Saves, marks}
use engr_serverless_pm.Guard.Uploads.Restaged.{RestagedSo, restage_upload-Yields}
use engr_serverless_pm.Guard.Uploads.Completed.{
  Commits, Starts, Performed, perform-Yields, finish-Yields,
}
use engr_serverless_pm.Guard.Uploads.Reported.{
  IsNotCommitted, tells_no_commit, perform-Throws, finish-Throws,
}

-- If complete: a state without a marker was encrypted, then one with the retried marker, which was
-- saved; the upload was started; the provider committed; and the state without the marker was saved.
-- If it threw, nothing was committed.
abbrev pub Retries : Upload → PendingSnapshotUpload → Result SyncUploadStatus → List Event → Type 0
Retries u m (ok complete) l =
    (intent : StagedIntent) × (found : PendingSnapshotUpload) × (are_pending_snapshot_uploads_equal
        found m
      ≡ true)
    × InOrder (Saves u.persisted intent.clear ∷ Commits ∷ Starts ∷ marks u.persisted found intent) l
Retries u m (ok pending) l = Unit
Retries u m (err e) l = IsNotCommitted l

-- What restaging has done, whether or not it threw.
abbrev Restages : Upload → PendingSnapshotUpload → Result RestagedIntent → List Event → Type 0
Restages u m r l = (any is_start l ≡ false) × Gives (RestagedSo u.persisted m) r l

abbrev Tried : Result (Result SyncUploadStatus) → List Event → Type 0
Tried (ok r) k = Gives Performed r k × Refuses IsNotCommitted r k
Tried (err e) k = ⊥

abbrev is_ok : Result SyncUploadStatus → Bool
is_ok (ok s) = true
is_ok (err e) = false

module _ (env : Environment) where
  restore-Never :
      (u : Upload) (i : RestagedIntent) (e : Error) (h : List Event)
      → any is_start (restore_failed env u i e h).1 ≡ false
  unfolding try_replace_sync_credential_state
  restore-Never u i e h = ground arith

  restore_threw :
      (u : Upload) (i : RestagedIntent) (e : Error) (h : List Event)
      → is_ok (restore_failed env u i e h).0 ≡ false
  unfolding try_replace_sync_credential_state
  restore_threw u i e h = ground arith

  retry_after-Retries :
      (u : Upload) (m : PendingSnapshotUpload) (i : RestagedIntent) (r : Result SyncUploadStatus)
      (k l : List Event)
      → Restages u m (ok i) l
      → Tried (ok r) k
      → Ensures (λ o j. Retries u m o ((j ++ k) ++ l)) (retry_after env u i r)
  retry_after-Retries u m i (ok s) k l (_, (found, equal, marked)) (performed, _) h =
      of_finish (finish_upload env u op i.intent s h) (finish-Yields env u op i.intent s h)
        (finish-Throws env u op i.intent s l h)
    where
      op : String
      op = "clear a retried snapshot upload"

      of_finish :
          (r : Result SyncUploadStatus × List Event)
          → Gives
              (λ t j.
                t ≡ complete → (s ≡ complete) × InOrder (Saves u.persisted i.intent.clear ∷ []) j)
              r.0
              r.1
          → Refuses (λ _. ⊥) r.0 r.1
          → Retries u m r.0 ((r.1 ++ k) ++ l)
      of_finish (ok pending, j) g _ = tt
      of_finish (ok complete, j) g _ =
          let (is, saved) = g refl in
          (
            i.intent,
            found,
            equal,
            InOrder-append (Saves u.persisted i.intent.clear ∷ Commits ∷ Starts ∷ [])
                (marks u.persisted found i.intent) (j ++ k) l
                (InOrder-append (Saves u.persisted i.intent.clear ∷ []) (Commits ∷ Starts ∷ []) j k
                  saved (performed is))
                marked,
          )
      of_finish (err e, j) g b = absurd b
  retry_after-Retries u m i (err e) k l (unstarted, _) (_, not_committed) h =
      of_restore (restore_failed env u i e h) (restore-Never u i e h) (restore_threw u i e h)
    where
      of_restore :
          (r : Result SyncUploadStatus × List Event)
          → any is_start r.1 ≡ false
          → is_ok r.0 ≡ false
          → Retries u m r.0 ((r.1 ++ k) ++ l)
      of_restore (ok s, j) quiet threw = absurd (ground (arith, threw))
      of_restore (err x, j) quiet threw =
          rw
            (
              any-append tells_no_commit (j ++ k) l,
              any-append is_start (j ++ k) l,
              any-append tells_no_commit j k,
              any-append is_start j k,
              quiet,
              unstarted,
            )
            (ground (arith, not_committed))

  retry_pending-Ensures :
      (u : Upload) (m : PendingSnapshotUpload)
      → Ensures (Retries u m) (retry_pending_snapshot_upload env u m)
  unfolding retry_pending_snapshot_upload
  retry_pending-Ensures u m =
      Ensures->>= (Restages u m) (Retries u m) _ _
        (λ h. (restage-Never env u m h, restage_upload-Yields env u m h))
        (λ i l restaged.
          Ensures->>= Tried (λ r k. Retries u m r (k ++ l))
            (attempt (perform_upload env u "retry a pending snapshot upload")) _
            (λ h. (
              perform-Yields env u "retry a pending snapshot upload" h,
              perform-Throws env u "retry a pending snapshot upload" h,
            ))
            (λ r k tried. retry_after-Retries u m i r k l restaged tried) (λ e k so. absurd so))
        (λ e l restaged. ground (arith, restaged.0))

  -- A retried upload that completes has encrypted the credential state without a marker and with one
  -- equal to the retried marker, then saved the one with the marker, then started the upload, then
  -- heard from the provider that it committed, and then saved the one without, each beside the
  -- uploaded snapshot. One that throws was not started, or the provider says that it did not commit.
  pub retry_pending-Retries :
      (u : Upload) (m : PendingSnapshotUpload) (h : List Event)
      → Retries u m
          (retry_pending_snapshot_upload env u m h).0
          (retry_pending_snapshot_upload env u m h).1
  retry_pending-Retries u m h = retry_pending-Ensures u m h
