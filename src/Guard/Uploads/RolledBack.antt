-- ===== src/Guard/Uploads/RolledBack.antt =====
-- When an upload that throws is rolled back, and what a retried upload tells.
use mathlib.Core.List.{append_assoc}
use engr_serverless_pm.Base.{
  String, ◌≡◌, refl, ◌∙◌, Bool, true, false, any, any-append, List, ◌++◌, Result, ok, err, arith,
  Error,
}
use engr_serverless_pm.Base.Effects.{attempt, Ensures, Ensures->>=}
use engr_serverless_pm.Base.Traces.{Never, Never->>=, Refuses}
use engr_serverless_pm.Versioning.{VersionVector}
use engr_serverless_pm.Snapshot.{SerializedEncrypted}
use engr_serverless_pm.Guard.Types.{SyncUploadStatus, complete, pending}
use engr_serverless_pm.Guard.Calls.{Event, restore_decided, Environment}
use engr_serverless_pm.Guard.Credentials.{
  StagedIntent, StagedUpload, already_pending, staged, try_replace_sync_credential_state,
}
use engr_serverless_pm.Guard.Uploads.{
  Upload, PreparedRestore, is_start, stage_upload, perform_upload, finish_upload, upload_staged,
  roll_back, or_roll_back, upload_persisted_after, upload_persisted_snapshot,
}
use engr_serverless_pm.Guard.Uploads.Quiet.{stage_upload-Never}
use engr_serverless_pm.Guard.Uploads.Reported.{
  IsNotCommitted, tells_no_commit, upload_staged-Throws,
}

-- The session service is asked to restore the state from before.
abbrev pub is_rollback : Event → Bool
is_rollback (restore_decided _ _ _ _) = true
is_rollback _ = false

-- A rollback was asked for exactly if the upload threw, and then nothing was committed.
abbrev pub RollsBack : Result SyncUploadStatus → List Event → Type 0
RollsBack (ok s) l = any is_rollback l ≡ false
RollsBack (err e) l = IsNotCommitted l × (any is_rollback l ≡ true)

abbrev Calm : List Event → Type 0
Calm l = (any is_rollback l ≡ false) × (any is_start l ≡ false)

abbrev is_ok : Result SyncUploadStatus → Bool
is_ok (ok s) = true
is_ok (err e) = false

module _ (env : Environment) where
  stage-Never : (u : Upload) → Never is_rollback (stage_upload env u)
  unfolding stage_upload
  stage-Never u h = ground arith

  perform-Never : (u : Upload) (op : String) → Never is_rollback (perform_upload env u op)
  unfolding perform_upload
  perform-Never u op h = ground arith

  finish-Never :
      (u : Upload) (op : String) (i : StagedIntent) (s : SyncUploadStatus)
      → Never is_rollback (finish_upload env u op i s)
  unfolding try_replace_sync_credential_state
  finish-Never u op i complete h = ground arith
  finish-Never u op i pending h = refl

  abbrev Failed : Result SyncUploadStatus → List Event → Type 0
  Failed (ok s) k = ⊥
  Failed (err e) k = (any is_rollback k ≡ true) × (any is_start k ≡ false)

  roll_back-Failed :
      (u : Upload) (v : VersionVector) (r : PreparedRestore) (c : SerializedEncrypted) (e : Error)
      → Ensures Failed (roll_back env u v r c e)
  unfolding roll_back
  roll_back-Failed u v r c e h =
      together (roll_back env u v r c e h) (ground arith) (ground arith) (ground arith)
    where
      together :
          (r : Result SyncUploadStatus × List Event)
          → is_ok r.0 ≡ false
          → any is_rollback r.1 ≡ true
          → any is_start r.1 ≡ false
          → Failed r.0 r.1
      together (ok s, k) threw asked unstarted = absurd (ground (arith, threw))
      together (err e, k) threw asked unstarted = (asked, unstarted)

  upload_staged-Never : (u : Upload) (i : StagedIntent) → Never is_rollback (upload_staged env u i)
  unfolding upload_staged
  upload_staged-Never u i =
      Never->>= is_rollback (perform_upload env u "start a snapshot upload") _
        (perform-Never u "start a snapshot upload")
        (finish-Never u "clear a completed snapshot upload" i)

  -- A rollback that follows calls after which nothing is committed.
  rolled_back :
      (u : Upload) (v : VersionVector) (r : PreparedRestore) (c : SerializedEncrypted) (e : Error)
      (l : List Event)
      → IsNotCommitted l
      → Ensures (λ r k. RollsBack r (k ++ l)) (roll_back env u v r c e)
  rolled_back u v r c e l not_committed h =
      beside (roll_back env u v r c e h) (roll_back-Failed u v r c e h)
    where
      beside :
          (r : Result SyncUploadStatus × List Event) → Failed r.0 r.1 → RollsBack r.0 (r.1 ++ l)
      beside (ok s, k) f = absurd f
      beside (err e, k) (asked, unstarted) = (
        rw (any-append tells_no_commit k l, any-append is_start k l, unstarted)
            (ground (arith, not_committed)),
        any-append is_rollback k l ∙ ground (arith, asked),
      )

  abbrev Staged : Result (Result StagedUpload) → List Event → Type 0
  Staged (ok r) l = (any is_rollback l ≡ false) × (any is_start l ≡ false)
  Staged (err e) l = ⊥

  abbrev Uploaded : List Event → Result (Result SyncUploadStatus) → List Event → Type 0
  Uploaded l (ok r) k = (any is_rollback k ≡ false) × Refuses IsNotCommitted r k
  Uploaded l (err e) k = ⊥

  upload_persisted-Ensures :
      (u : Upload) (v : VersionVector) (r : PreparedRestore) (c : SerializedEncrypted)
      → Ensures RollsBack (upload_persisted_snapshot env u v r c)
  unfolding upload_persisted_snapshot
  upload_persisted-Ensures u v r c =
      Ensures->>= Staged RollsBack (attempt (stage_upload env u)) _
        (λ h. (stage-Never u h, stage_upload-Never env u h)) next (λ e l so. absurd so)
    where
      next :
          (o : Result StagedUpload) (l : List Event)
          → Staged (ok o) l
          → Ensures (λ r k. RollsBack r (k ++ l)) (upload_persisted_after env u v r c o)
      next (err e) l (calm, unstarted) h = rolled_back u v r c e l (ground (arith, unstarted)) h
      next (ok already_pending) l (calm, unstarted) h = calm
      next (ok (staged i)) l (calm, unstarted) h =
          Ensures->>= (Uploaded l) (λ r k. RollsBack r (k ++ l)) (attempt (upload_staged env u i)) _
            (λ h. (upload_staged-Never u i h, upload_staged-Throws env u i h)) after
            (λ e k so. absurd so) h
        where
          after :
              (o : Result SyncUploadStatus) (k : List Event)
              → Uploaded l (ok o) k
              → Ensures (λ r j. RollsBack r ((j ++ k) ++ l)) (or_roll_back env u v r i.pending o)
          after (ok s) k (quiet, _) h = any-append is_rollback k l ∙ ground (arith, quiet, calm)
          after (err e) k (quiet, not_committed) h =
              rw (append_assoc (roll_back env u v r i.pending e h).1 k l) (
                rolled_back u v r i.pending e (k ++ l)
                  (rw (any-append tells_no_commit k l, any-append is_start k l, unstarted)
                    (ground (arith, not_committed)))
                  h)

  -- The persisted upload asks for a rollback exactly if it throws, and it throws only if the upload
  -- was not started or the provider says that it did not commit.
  pub upload_persisted-RollsBack :
      (u : Upload) (v : VersionVector) (r : PreparedRestore) (c : SerializedEncrypted)
      (h : List Event)
      → RollsBack
          (upload_persisted_snapshot env u v r c h).0
          (upload_persisted_snapshot env u v r c h).1
  upload_persisted-RollsBack u v r c h = upload_persisted-Ensures u v r c h
