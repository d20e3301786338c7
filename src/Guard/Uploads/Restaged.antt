-- ===== src/Guard/Uploads/Restaged.antt =====
-- A retried upload's marker is saved again, in the encryption that was made of it.
use engr_serverless_pm.Base.{
  String, ◌≡◌, refl, Bool, true, false, not, Option, none, some, List, [], ◌∷◌, ◌++◌, inl,
  remote_vault_snapshot_integrity,
}
use engr_serverless_pm.Base.Traces.{
  Yields, Yields->>=, Yields-call, Yields-any, Yields-map, InOrder, InOrder-append, InOrder-after,
  InOrder-before,
}
use engr_serverless_pm.Session.Types.{UnlockedVault}
use engr_serverless_pm.Guard.Types.{
  PendingSnapshotUpload, to_sync_credential_state_without_pending,
  are_pending_snapshot_uploads_equal,
}
use engr_serverless_pm.Guard.Calls.{Event, saved, Environment, save_vault_snapshot_with_checkpoint}
use engr_serverless_pm.Guard.Credentials.{
  Persisted, RestagedIntent, CredentialAccess, replacing, throw_if, is_same_pending, encrypt_state,
  encrypt_without_pending, require_sync_credential_state, restage_found,
  restage_pending_snapshot_upload, run_for_active_session, with_active_key,
}
use engr_serverless_pm.Guard.Uploads.{Upload}
use engr_serverless_pm.Guard.Uploads.Staged.{
  Saves, Encrypts, marks, encrypt_state-Yields, run_active-Yields,
}

-- The marker that is saved again is equal to the retried one.
abbrev pub RestagedSo : Persisted → PendingSnapshotUpload → RestagedIntent → List Event → Type 0
RestagedSo p m i l =
    (found : PendingSnapshotUpload) × (are_pending_snapshot_uploads_equal found m ≡ true)
    × InOrder (marks p found i.intent) l

found_of_same :
    (o : Option PendingSnapshotUpload) (m : PendingSnapshotUpload)
    → is_same_pending o m ≡ true
    → (found : PendingSnapshotUpload) × (are_pending_snapshot_uploads_equal found m ≡ true)
      × (o ≡ some found)
found_of_same none m same = cc
found_of_same (some found) m same = (found, same, refl)

same-Yields :
    (b : Bool) (v : String)
    → Yields (λ _ l. b ≡ true) (throw_if (not b) (remote_vault_snapshot_integrity v))
same-Yields true v h = refl
same-Yields false v h = tt

RestagedSo-after :
    (p : Persisted) (m : PendingSnapshotUpload) (i : RestagedIntent) (k l : List Event)
    → RestagedSo p m i k
    → RestagedSo p m i (k ++ l)
RestagedSo-after p m i k l (found, equal, o) =
    (found, equal, InOrder-after (marks p found i.intent) k l o)

RestagedSo-before :
    (p : Persisted) (m : PendingSnapshotUpload) (i : RestagedIntent) (k l : List Event)
    → RestagedSo p m i l
    → RestagedSo p m i (k ++ l)
RestagedSo-before p m i k l (found, equal, o) =
    (found, equal, InOrder-before (marks p found i.intent) k l o)

module _ (env : Environment) where
  found-Yields :
      (v : String) (u : UnlockedVault) (p : Persisted) (m : PendingSnapshotUpload)
      (a : CredentialAccess)
      → is_same_pending a.state.pending_snapshot_upload m ≡ true
      → Yields (RestagedSo p m) (restage_found env v u p a)
  unfolding to_sync_credential_state_without_pending
  found-Yields v u p m a same =
      let (found, equal, is) = found_of_same a.state.pending_snapshot_upload m same in
      Yields->>= (λ c l. InOrder (Encrypts none c ∷ []) l) (RestagedSo p m)
        (encrypt_without_pending env v u a.state) _
        (encrypt_state-Yields env v u (to_sync_credential_state_without_pending a.state) none refl)
        (λ clear l unmarked.
          Yields->>= (λ c k. InOrder (Encrypts (some found) c ∷ []) k)
            (λ b k. RestagedSo p m b (k ++ l)) (encrypt_state env v u a.state) _
            (encrypt_state-Yields env v u a.state (some found) is)
            (λ c k encrypted.
              Yields->>= (λ _ j. InOrder (Saves p c ∷ []) j)
                (λ b j. RestagedSo p m b ((j ++ k) ++ l))
                (save_vault_snapshot_with_checkpoint env (replacing p a.encrypted_state c)) _
                (Yields-call (λ _ j. InOrder (Saves p c ∷ []) j) _
                  (saved (replacing p a.encrypted_state c))
                  (λ _. inl ((a.encrypted_state, refl), tt)))
                (λ _ j done h. (
                  found,
                  equal,
                  InOrder-append (Saves p c ∷ Encrypts (some found) c ∷ [])
                      (Encrypts none clear ∷ []) (j ++ k) l
                      (InOrder-append (Saves p c ∷ []) (Encrypts (some found) c ∷ []) j k done
                        encrypted)
                      unmarked,
                ))))

  restage-Yields :
      (v : String) (u : UnlockedVault) (p : Persisted) (m : PendingSnapshotUpload)
      → Yields (RestagedSo p m) (restage_pending_snapshot_upload env v u p m)
  unfolding restage_pending_snapshot_upload
  restage-Yields v u p m =
      Yields->>= (λ _ _. Unit {0}) (RestagedSo p m) (require_sync_credential_state env v u) _
        (Yields-any (require_sync_credential_state env v u))
        (λ a i _.
          Yields->>= (λ _ _. is_same_pending a.state.pending_snapshot_upload m ≡ true)
            (λ b k. RestagedSo p m b (k ++ i))
            (throw_if (not (is_same_pending a.state.pending_snapshot_upload m))
              (remote_vault_snapshot_integrity v))
            _ (same-Yields (is_same_pending a.state.pending_snapshot_upload m) v)
            (λ _ j same.
              Yields-map (RestagedSo p m) (λ b k. RestagedSo p m b ((k ++ j) ++ i)) _
                (λ b k so. RestagedSo-after p m b (k ++ j) i (RestagedSo-after p m b k j so))
                (found-Yields v u p m a same)))

  pub restage_upload-Yields :
      (u : Upload) (m : PendingSnapshotUpload)
      → Yields (RestagedSo u.persisted m) (
          run_for_active_session env u.session_id u.vault_id "restage a pending snapshot upload"
            λ active.
              restage_pending_snapshot_upload env u.vault_id
                (with_active_key u.unlocked_vault active)
                u.persisted
                m)
  restage_upload-Yields u m =
      run_active-Yields env (RestagedSo u.persisted m) u.session_id u.vault_id
        "restage a pending snapshot upload" _ (RestagedSo-after u.persisted m)
        (RestagedSo-before u.persisted m)
        (λ active.
          restage-Yields u.vault_id (with_active_key u.unlocked_vault active) u.persisted m)
