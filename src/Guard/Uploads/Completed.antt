-- ===== src/Guard/Uploads/Completed.antt =====
-- The calls that a completed upload has made, in their order.
use engr_serverless_pm.Base.{
  String, ◌≡◌, refl, ◌∙◌, Bool, true, false, any, List, [], ◌∷◌, ◌++◌, Result, ok, err, arith, inl,
  eq_iff, ap, if◌then◌else◌,
}
use engr_serverless_pm.Base.Effects.{pure, throw, observe}
use engr_serverless_pm.Base.Traces.{
  Gives, Gives-ok, Yields, Yields->>=, Yields-call, Yields-any, Yields-map, InOrder, InOrder-append,
  InOrder-after, InOrder-before,
}
use engr_serverless_pm.Guard.Types.{SyncUploadStatus, complete, pending}
use engr_serverless_pm.Guard.Outcome.{
  ProviderValue, SyncUploadOutcome, committed, outcome_unknown, definitely_not_committed,
  outcome_value, definite_or_unknown, resolve_sync_provider_upload_status,
  resolve_non_started_sync_provider_upload_outcome, resolve_sync_provider_upload_outcome,
}
use engr_serverless_pm.Guard.Outcome.Exact.{Represents, status-complete_iff}
use engr_serverless_pm.Guard.Calls.{
  Event, saved, upload_started, upload_settled, Environment, PreparedSyncUpload, ready, not_started,
  prepare_vault_snapshot_upload, start_upload,
}
use engr_serverless_pm.Guard.Credentials.{
  Persisted, StagedIntent, StagedUpload, already_pending, staged, replacing, is_saved,
  try_replace_sync_credential_state, try_clear_pending_snapshot_upload, run_for_active_session,
}
use engr_serverless_pm.Guard.Uploads.{
  Upload, is_start, marker_of, stage_upload, perform_upload, start_prepared_upload, outcome_of,
  after_start, or_unknown, cleared_status, finish_upload, upload_staged, upload_after,
  upload_tracked_snapshot,
}
use engr_serverless_pm.Guard.Uploads.Staged.{
  Saves, marks, StagedSo, stage_upload-Yields, run_active-Yields,
}

abbrev pub Starts : Event → Type 0
Starts e = e ≡ upload_started (ok tt)

-- The provider's answer is that the upload committed.
abbrev pub Commits : Event → Type 0
Commits e = (value : ProviderValue) × Represents value committed × (e ≡ upload_settled (ok value))

-- The calls of an upload, newest first: a state without the marker is saved in place of the marked
-- one, the provider has committed, the upload is started, and its intent is staged.
abbrev pub IsCompleted : Upload → List Event → Type 0
IsCompleted u l =
    (intent : StagedIntent) × InOrder
      (Saves u.persisted intent.clear ∷ Commits ∷ Starts ∷ marks u.persisted (marker_of u) intent) l

abbrev Cleared : Persisted → StagedIntent → Bool → List Event → Type 0
Cleared p i b l = b ≡ true → InOrder (Saves p i.clear ∷ []) l

abbrev pub Performed : SyncUploadStatus → List Event → Type 0
Performed s l = s ≡ complete → InOrder (Commits ∷ Starts ∷ []) l

abbrev IfCommitted : ProviderValue → List Event → Type 0
IfCommitted v l = Represents v committed → InOrder (Commits ∷ Starts ∷ []) l

non_started-Represents :
    (v : ProviderValue)
    → Represents (outcome_value (resolve_non_started_sync_provider_upload_outcome v)) committed
    → ⊥
unfolding resolve_non_started_sync_provider_upload_outcome
non_started-Represents v c = of_outcome (resolve_sync_provider_upload_outcome v) c
  where
    of_outcome :
        (o : SyncUploadOutcome) → Represents (outcome_value (definite_or_unknown o)) committed → ⊥
    of_outcome committed c = ground (arith, c, eq_iff "outcome_unknown" "committed")
    of_outcome outcome_unknown c = ground (arith, c, eq_iff "outcome_unknown" "committed")
    of_outcome (definitely_not_committed r) c = ground (arith, c)

unknown-Represents : Represents (outcome_value outcome_unknown) committed → ⊥
unknown-Represents c = ground (arith, c, eq_iff "outcome_unknown" "committed")

module _ (env : Environment) where
  replace-Yields :
      (p : Persisted) (i : StagedIntent)
      → Yields (Cleared p i) (try_clear_pending_snapshot_upload env p i)
  unfolding try_replace_sync_credential_state
  replace-Yields p i h =
      of_reply (env.save_vault_snapshot_with_checkpoint h (replacing p i.pending i.clear))
    where
      of_reply :
          (r : Result (Unit {0}))
          → is_saved r ≡ true
          → InOrder (Saves p i.clear ∷ []) (saved (replacing p i.pending i.clear) r ∷ [])
      of_reply (ok tt) h = inl ((i.pending, refl), tt)
      of_reply (err e) h = absurd (ground (arith, h))

  pub finish-Yields :
      (u : Upload) (op : String) (i : StagedIntent) (s : SyncUploadStatus)
      → Yields
          (λ t k. t ≡ complete → (s ≡ complete) × InOrder (Saves u.persisted i.clear ∷ []) k)
          (finish_upload env u op i s)
  finish-Yields u op i pending h = λ e. absurd (ground (arith, e))
  finish-Yields u op i complete h = of_cleared _ (
      run_active-Yields env (Cleared u.persisted i) u.session_id u.vault_id op _
        (λ b k l c e. InOrder-after (Saves u.persisted i.clear ∷ []) k l (c e))
        (λ b k l c e. InOrder-before (Saves u.persisted i.clear ∷ []) k l (c e))
        (λ _. replace-Yields u.persisted i) h)
    where
      of_cleared :
          (r : Result Bool × List Event)
          → Gives (Cleared u.persisted i) r.0 r.1
          → cleared_status r.0 ≡ complete
          → (complete ≡ complete) × InOrder (Saves u.persisted i.clear ∷ []) r.1
      of_cleared (ok true, l) g e = (refl, g refl)
      of_cleared (ok false, l) g e = absurd (ground (arith, e))
      of_cleared (err x, l) g e = absurd (ground (arith, e))

  started-Yields :
      (session_id v op : String)
      → Yields
          (λ (a : Result (Unit {0}) × List Event) l. a.0 ≡ ok tt → InOrder (Starts ∷ []) l)
          (observe (run_for_active_session env session_id v op (λ _. start_upload env)))
  started-Yields session_id v op h = of_run _ (
      run_active-Yields env (λ _ l. InOrder (Starts ∷ []) l) session_id v op (λ _. start_upload env)
        (λ _ k l c. InOrder-after (Starts ∷ []) k l c)
        (λ _ k l c. InOrder-before (Starts ∷ []) k l c)
        (λ _. Yields-call (λ _ l. InOrder (Starts ∷ []) l) _ upload_started (λ _. inl (refl, tt)))
        h)
    where
      of_run :
          (r : Result (Unit {0}) × List Event)
          → Gives (λ _ l. InOrder (Starts ∷ []) l) r.0 r.1
          → r.0 ≡ ok tt
          → InOrder (Starts ∷ []) r.1
      of_run (ok tt, l) g e = g
      of_run (err x, l) g e = absurd (ground (arith, e))

  after_start-Yields :
      (r : Result (Unit {0})) (calls l : List Event)
      → (r ≡ ok tt → InOrder (Starts ∷ []) l)
      → Yields (λ v k. IfCommitted v (k ++ l)) (after_start env r calls)
  after_start-Yields (err thrown) calls l started h =
      elim (any is_start calls)
        as (λ b.
          Gives (λ v k. IfCommitted v (k ++ l))
            ((if b then pure (outcome_value outcome_unknown) else throw thrown) h).0
            ((if b then pure (outcome_value outcome_unknown) else throw thrown) h).1) [
              | true ↦ λ c. absurd (unknown-Represents c)
              | false ↦ tt
            ]
  after_start-Yields (ok tt) calls l started h = of_answer (env.upload_outcome h)
    where
      of_answer : (r : Result ProviderValue) → IfCommitted (or_unknown r) (upload_settled r ∷ l)
      of_answer (ok v) c = inl ((v, c, refl), started refl)
      of_answer (err e) c = absurd (unknown-Represents c)

  start_prepared-Yields :
      (u : Upload) (op : String)
      → Yields IfCommitted (start_prepared_upload env u.session_id u.vault_id op)
  unfolding start_prepared_upload
  start_prepared-Yields u op =
      Yields->>= _ IfCommitted
        (observe (run_for_active_session env u.session_id u.vault_id op (λ _. start_upload env))) _
        (started-Yields u.session_id u.vault_id op)
        (λ a l started. after_start-Yields a.0 a.1 l started)

  outcome-Yields :
      (u : Upload) (op : String) (prepared : PreparedSyncUpload)
      → Yields IfCommitted (outcome_of env u op prepared)
  outcome-Yields u op (not_started v) h = λ c. absurd (non_started-Represents v c)
  outcome-Yields u op ready h = start_prepared-Yields u op h

  pub perform-Yields : (u : Upload) (op : String) → Yields Performed (perform_upload env u op)
  unfolding perform_upload
  perform-Yields u op =
      Yields->>= (λ _ _. Unit {0}) Performed
        (prepare_vault_snapshot_upload env u.sync_access u.persisted.snapshot u.expected_remote) _
        (Yields-any
          (prepare_vault_snapshot_upload env u.sync_access u.persisted.snapshot u.expected_remote))
        (λ prepared l _.
          Yields->>= IfCommitted (λ s k. Performed s (k ++ l)) (outcome_of env u op prepared) _
            (outcome-Yields u op prepared) (λ v k so h. resolved v k l so _ refl))
    where
      resolved :
          (v : ProviderValue) (k l : List Event)
          → IfCommitted v k
          → (r : Result SyncUploadStatus) → resolve_sync_provider_upload_status u.vault_id v ≡ r
          → Gives (λ s j. Performed s ((j ++ k) ++ l)) r []
      resolved v k l so (ok s) is = λ e.
          InOrder-after (Commits ∷ Starts ∷ []) k l
            (so ((status-complete_iff u.vault_id v).0 (is ∙ ap ok e)))
      resolved v k l so (err x) is = tt

  upload_staged-Yields :
      (u : Upload) (i : StagedIntent) (l : List Event)
      → InOrder (marks u.persisted (marker_of u) i) l
      → Yields (λ s k. s ≡ complete → IsCompleted u (k ++ l)) (upload_staged env u i)
  unfolding upload_staged
  upload_staged-Yields u i l marked =
      Yields->>= Performed (λ s k. s ≡ complete → IsCompleted u (k ++ l))
        (perform_upload env u "start a snapshot upload") _
        (perform-Yields u "start a snapshot upload")
        (λ s k performed.
          Yields-map _ (λ t j. t ≡ complete → IsCompleted u ((j ++ k) ++ l)) _
            (λ t j finished e.
              let (is, cleared) = finished e in
              (
                i,
                InOrder-append (Saves u.persisted i.clear ∷ Commits ∷ Starts ∷ [])
                    (marks u.persisted (marker_of u) i) (j ++ k) l
                    (InOrder-append (Saves u.persisted i.clear ∷ []) (Commits ∷ Starts ∷ []) j k
                      cleared (performed is))
                    marked,
              ))
            (finish-Yields u "clear a completed snapshot upload" i s))

  upload_tracked-Yields :
      (u : Upload) → Yields (λ s l. s ≡ complete → IsCompleted u l) (upload_tracked_snapshot env u)
  unfolding upload_tracked_snapshot
  upload_tracked-Yields u =
      Yields->>= (StagedSo u.persisted (marker_of u)) (λ s l. s ≡ complete → IsCompleted u l)
        (stage_upload env u) _ (stage_upload-Yields env u) next
    where
      next :
          (s : StagedUpload) (l : List Event)
          → StagedSo u.persisted (marker_of u) s l
          → Yields (λ s k. s ≡ complete → IsCompleted u (k ++ l)) (upload_after env u s)
      next already_pending l so h = λ e. absurd (ground (arith, e))
      next (staged i) l so h = upload_staged-Yields u i l so h

  -- An upload that completes has encrypted the credential state without a marker and with its own,
  -- then saved the one with the marker, then started the upload, then heard from the provider that
  -- it committed, and then saved the one without, each beside the uploaded snapshot.
  pub upload_tracked-IsCompleted :
      (u : Upload) (h : List Event)
      → (upload_tracked_snapshot env u h).0 ≡ ok complete
      → IsCompleted u (upload_tracked_snapshot env u h).1
  upload_tracked-IsCompleted u h e =
      Gives-ok (λ s l. s ≡ complete → IsCompleted u l) (upload_tracked_snapshot env u h).0
        (upload_tracked_snapshot env u h).1 complete (upload_tracked-Yields u h) e refl
