-- ===== src/Guard/Uploads/WrittenAhead.antt =====
-- The marker of an upload is saved before the upload is started.
use engr_serverless_pm.Base.{
  ◌≡◌, sym, ◌∙◌, true, false, any, any-append, List, [], ◌∷◌, ◌++◌, Result, ok, arith, Bool-cases,
  inl, inr,
}
use engr_serverless_pm.Base.Effects.{Ensures, Ensures->>=}
use engr_serverless_pm.Base.Traces.{Gives, InOrder, InOrder-append}
use engr_serverless_pm.Guard.Calls.{Event, Environment}
use engr_serverless_pm.Guard.Credentials.{StagedIntent, StagedUpload, already_pending, staged}
use engr_serverless_pm.Guard.Uploads.{
  Upload, marker_of, is_start, stage_upload, upload_after, upload_staged, upload_tracked_snapshot,
}
use engr_serverless_pm.Guard.Uploads.Quiet.{stage_upload-Never}
use engr_serverless_pm.Guard.Uploads.Staged.{marks, StagedSo, stage_upload-Yields}

-- The calls, newest first, of an upload that is started after its intent is staged.
abbrev pub IsWrittenAhead : Upload → List Event → Type 0
IsWrittenAhead u l =
    (intent : StagedIntent) × InOrder
      ((λ e. is_start e ≡ true) ∷ marks u.persisted (marker_of u) intent) l

abbrev Staging : Upload → Result StagedUpload → List Event → Type 0
Staging u r l = (any is_start l ≡ false) × Gives (StagedSo u.persisted (marker_of u)) r l

started_some : (k : List Event) → any is_start k ≡ true → InOrder ((λ e. is_start e ≡ true) ∷ []) k
started_some [] h = absurd (ground (arith, h))
started_some (e ∷ k) h = elim (Bool-cases (is_start e)) [
  | inl here ↦ inl (here, tt)
  | inr later ↦ inr (started_some k (ground (arith, h, later)))
]

module _ (env : Environment) where
  upload_tracked-Ensures :
      (u : Upload)
      → Ensures (λ r l. any is_start l ≡ true → IsWrittenAhead u l) (upload_tracked_snapshot env u)
  unfolding upload_tracked_snapshot
  upload_tracked-Ensures u =
      Ensures->>= (Staging u) (λ r l. any is_start l ≡ true → IsWrittenAhead u l)
        (stage_upload env u) _ (λ h. (stage_upload-Never env u h, stage_upload-Yields env u h)) next
        (λ e l (unstarted, _) starts. absurd (ground (arith, unstarted, starts)))
    where
      next :
          (s : StagedUpload) (l : List Event)
          → Staging u (ok s) l
          → Ensures
              (λ r k. any is_start (k ++ l) ≡ true → IsWrittenAhead u (k ++ l))
              (upload_after env u s)
      next already_pending l (unstarted, _) h starts = absurd (ground (arith, unstarted, starts))
      next (staged i) l (unstarted, marked) h starts =
          let k = (upload_staged env u i h).1 in
          (
            i,
            InOrder-append ((λ e. is_start e ≡ true) ∷ []) (marks u.persisted (marker_of u) i) k l
                (started_some k (ground (arith, sym (any-append is_start k l) ∙ starts, unstarted)))
                marked,
          )

  -- Whatever becomes of a tracked upload: if it is started, a credential state with its marker has
  -- been encrypted and saved before, beside the uploaded snapshot, and a state without one encrypted.
  pub upload_tracked-IsWrittenAhead :
      (u : Upload) (h : List Event)
      → any is_start (upload_tracked_snapshot env u h).1 ≡ true
      → IsWrittenAhead u (upload_tracked_snapshot env u h).1
  upload_tracked-IsWrittenAhead u h = upload_tracked-Ensures u h
