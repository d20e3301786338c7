-- ===== src/Guard/Uploads/Staged.antt =====
-- A staged upload's marker is saved, in the encryption that was made of it.
use engr_serverless_pm.Base.{
  String, ◌≡◌, refl, true, false, Option, none, some, List, [], ◌∷◌, ◌++◌, ok, inl, if◌then◌else◌,
  not, ◌==◌, remote_vault_snapshot_integrity, unlocked_vault_session_expired,
}
use engr_serverless_pm.Base.Effects.{pure, throw}
use engr_serverless_pm.Base.Traces.{
  Gives, Yields, Yields->>=, Yields-call, Yields-any, Yields-map, InOrder, InOrder-append,
  InOrder-after, InOrder-before,
}
use engr_serverless_pm.Snapshot.{Bytes, SerializedEncrypted}
use engr_serverless_pm.Session.Types.{UnlockedVault}
use engr_serverless_pm.Guard.Types.{
  DeviceSyncCredentialState, DeviceSyncCredentialEncryptionContext, PendingSnapshotUpload,
  to_sync_credential_state_without_pending, are_pending_snapshot_uploads_equal,
}
use engr_serverless_pm.Guard.Calls.{
  Event, saved, credential_state_encrypted, Environment, Guarded,
  save_vault_snapshot_with_checkpoint, enter_session, leave_session,
}
use engr_serverless_pm.Guard.Credentials.{
  Persisted, StagedIntent, StagedUpload, already_pending, staged, CredentialAccess, replacing,
  encrypt_state, encrypt_without_pending, require_sync_credential_encryption_context,
  require_sync_credential_state, stage_new_upload, stage_beside, stage_pending_snapshot_upload,
  throw_if, is_of_another_vault, run_for_active_session, with_active_key,
}
use engr_serverless_pm.Guard.Uploads.{Upload, marker_of, stage_upload}

-- The call encrypts a credential state with this marker, or with none.
abbrev pub Encrypts : Option PendingSnapshotUpload → SerializedEncrypted → Event → Type 0
Encrypts m c e =
    (s : DeviceSyncCredentialState) × (k : Bytes)
    × (context : DeviceSyncCredentialEncryptionContext) × (s.pending_snapshot_upload ≡ m)
    × (e ≡ credential_state_encrypted s k context (ok c))

-- The call saves the encrypted credential state beside the persisted snapshot.
abbrev pub Saves : Persisted → SerializedEncrypted → Event → Type 0
Saves p c e = (before : SerializedEncrypted) × (e ≡ saved (replacing p before c) (ok tt))

-- The calls, newest first, that make a staged upload's intent: the state with the marker is saved,
-- in an encryption of it, made after one of the state without a marker.
abbrev pub marks : Persisted → PendingSnapshotUpload → StagedIntent → List (Event → Type 0)
marks p m i = Saves p i.pending ∷ Encrypts (some m) i.pending ∷ Encrypts none i.clear ∷ []

abbrev pub StagedSo : Persisted → PendingSnapshotUpload → StagedUpload → List Event → Type 0
StagedSo p m already_pending l = Unit
StagedSo p m (staged intent) l = InOrder (marks p m intent) l

StagedSo-after :
    (p : Persisted) (m : PendingSnapshotUpload) (o : StagedUpload) (k l : List Event)
    → StagedSo p m o k
    → StagedSo p m o (k ++ l)
StagedSo-after p m already_pending k l so = tt
StagedSo-after p m (staged i) k l so = InOrder-after (marks p m i) k l so

StagedSo-before :
    (p : Persisted) (m : PendingSnapshotUpload) (o : StagedUpload) (k l : List Event)
    → StagedSo p m o l
    → StagedSo p m o (k ++ l)
StagedSo-before p m already_pending k l so = tt
StagedSo-before p m (staged i) k l so = InOrder-before (marks p m i) k l so

module _ (env : Environment) where
  -- What an operation of the active session yields, it yields within the session service's run.
  pub run_active-Yields :
      {A : Type 0} (Q : A → List Event → Type 0) (session_id v operation : String)
      (run : UnlockedVault → Guarded A)
      → ((a : A) (k l : List Event) → Q a k → Q a (k ++ l))
      → ((a : A) (k l : List Event) → Q a l → Q a (k ++ l))
      → ((u : UnlockedVault) → Yields Q (run u))
      → Yields Q (run_for_active_session env session_id v operation run)
  run_active-Yields {A} Q session_id v operation run after before y =
      Yields->>= (λ _ _. Unit {0}) Q (enter_session env v operation) _
        (Yields-any (enter_session env v operation))
        (λ s l _.
          Yields->>= (λ _ _. Unit {0}) (λ b k. Q b (k ++ l))
            (throw_if (not (s.session_id == session_id)) (unlocked_vault_session_expired v)) _
            (Yields-any
              (throw_if (not (s.session_id == session_id)) (unlocked_vault_session_expired v)))
            (λ _ k _.
              Yields->>= Q (λ b j. Q b ((j ++ k) ++ l)) (run s.unlocked_vault) _
                (y s.unlocked_vault)
                (λ a j q.
                  Yields->>= (λ _ _. Unit {0}) (λ b i. Q b (((i ++ j) ++ k) ++ l))
                    (leave_session env) _ (Yields-any (leave_session env))
                    (λ _ i _ h. after a ((i ++ j) ++ k) l (after a (i ++ j) k (before a i j q))))))

  pub encrypt_state-Yields :
      (v : String) (u : UnlockedVault) (s : DeviceSyncCredentialState)
      (m : Option PendingSnapshotUpload)
      → s.pending_snapshot_upload ≡ m
      → Yields (λ c l. InOrder (Encrypts m c ∷ []) l) (encrypt_state env v u s)
  unfolding encrypt_state
  encrypt_state-Yields v u s m e =
      Yields->>= (λ _ _. Unit {0}) _ (require_sync_credential_encryption_context v u) _
        (Yields-any (require_sync_credential_encryption_context v u))
        (λ context l _.
          Yields-call (λ c k. InOrder (Encrypts m c ∷ []) (k ++ l)) _
            (credential_state_encrypted s u.device_local_protection_key context)
            (λ c. inl ((s, u.device_local_protection_key, context, e, refl), tt)))

  stage_new-Yields :
      (v : String) (u : UnlockedVault) (p : Persisted) (m : PendingSnapshotUpload)
      (a : CredentialAccess)
      → Yields (StagedSo p m) (stage_new_upload env v u p m a)
  unfolding stage_new_upload to_sync_credential_state_without_pending
  stage_new-Yields v u p m a =
      Yields->>= (λ c l. InOrder (Encrypts none c ∷ []) l) (StagedSo p m)
        (encrypt_without_pending env v u a.state) _
        (encrypt_state-Yields v u (to_sync_credential_state_without_pending a.state) none refl)
        (λ clear l unmarked.
          Yields->>= (λ c k. InOrder (Encrypts (some m) c ∷ []) k) (λ b k. StagedSo p m b (k ++ l))
            _ _ (encrypt_state-Yields v u (marked a) (some m) refl)
            (λ c k encrypted.
              Yields->>= (λ _ j. InOrder (Saves p c ∷ []) j) (λ b j. StagedSo p m b ((j ++ k) ++ l))
                (save_vault_snapshot_with_checkpoint env (replacing p a.encrypted_state c)) _
                (Yields-call (λ _ j. InOrder (Saves p c ∷ []) j) _
                  (saved (replacing p a.encrypted_state c))
                  (λ _. inl ((a.encrypted_state, refl), tt)))
                (λ _ j done h.
                  InOrder-append (Saves p c ∷ Encrypts (some m) c ∷ []) (Encrypts none clear ∷ [])
                    (j ++ k) l
                    (InOrder-append (Saves p c ∷ []) (Encrypts (some m) c ∷ []) j k done encrypted)
                    unmarked)))
    where
      marked : CredentialAccess → DeviceSyncCredentialState
      marked a = record (to_sync_credential_state_without_pending a.state) {
        pending_snapshot_upload = some m;
      }

  stage_beside-Yields :
      (v : String) (u : UnlockedVault) (p : Persisted) (m : PendingSnapshotUpload)
      (a : CredentialAccess) (found : Option PendingSnapshotUpload)
      → Yields (StagedSo p m) (stage_beside env v u p m a found)
  stage_beside-Yields v u p m a none h = stage_new-Yields v u p m a h
  stage_beside-Yields v u p m a (some found) h =
      elim (are_pending_snapshot_uploads_equal found m)
        as (λ b.
          Gives (StagedSo p m)
            ((if b then pure already_pending else throw (remote_vault_snapshot_integrity v)) h).0
            ((if b then pure already_pending else throw (remote_vault_snapshot_integrity v)) h).1) [
              | true ↦ tt
              | false ↦ tt
            ]

  stage-Yields :
      (v : String) (u : UnlockedVault) (p : Persisted) (m : PendingSnapshotUpload)
      → Yields (StagedSo p m) (stage_pending_snapshot_upload env v u p m)
  unfolding stage_pending_snapshot_upload
  stage-Yields v u p m =
      Yields->>= (λ _ _. Unit {0}) (StagedSo p m) (throw_if (is_of_another_vault v m) _) _
        (Yields-any (throw_if (is_of_another_vault v m) _))
        (λ _ l _.
          Yields->>= (λ _ _. Unit {0}) (λ b k. StagedSo p m b (k ++ l))
            (require_sync_credential_state env v u) _
            (Yields-any (require_sync_credential_state env v u))
            (λ a k _.
              Yields-map (StagedSo p m) (λ b j. StagedSo p m b ((j ++ k) ++ l)) _
                (λ b j so. StagedSo-after p m b (j ++ k) l (StagedSo-after p m b j k so))
                (stage_beside-Yields v u p m a a.state.pending_snapshot_upload)))

  -- `stage_upload` saves the upload's marker.
  pub stage_upload-Yields :
      (u : Upload) → Yields (StagedSo u.persisted (marker_of u)) (stage_upload env u)
  unfolding stage_upload
  stage_upload-Yields u =
      run_active-Yields (StagedSo u.persisted (marker_of u)) u.session_id u.vault_id
        "stage a snapshot upload" _ (StagedSo-after u.persisted (marker_of u))
        (StagedSo-before u.persisted (marker_of u))
        (λ active.
          stage-Yields u.vault_id (with_active_key u.unlocked_vault active) u.persisted
            (marker_of u))
