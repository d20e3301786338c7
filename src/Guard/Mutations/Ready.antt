-- ===== src/Guard/Mutations/Ready.antt =====
-- A local mutation begins only once its checks have passed.
use engr_serverless_pm.Base.{
  Result, err, ap, ◌∙◌, sym, sync_removal_pending, local_vault_snapshot_ahead, List, [], ◌∷◌, ◌++◌,
  String, ◌≡◌, refl, true, Option, none, some, ok, arith, eq_iff,
}
use engr_serverless_pm.Base.Traces.{Gives, Gives-ok, Yields, Yields->>=}
use engr_serverless_pm.Versioning.{VersionVector}
use engr_serverless_pm.Snapshot.{VaultSnapshot, VaultSnapshotDescriptor}
use engr_serverless_pm.Vault.{SyncTarget}
use engr_serverless_pm.Session.Types.{UnlockedVault}
use engr_serverless_pm.Guard.Calls.{
  Event, snapshot_read, snapshot_digested, snapshot_verified, Environment,
}
use engr_serverless_pm.Guard.Types.{SyncAccess}
use engr_serverless_pm.Guard.Credentials.{has_pending, throw_if, require_sync_credential_state}
use engr_serverless_pm.Guard.Mutations.{
  LocalMutationSyncState, unsynced, synced, is_removal_pending, find_descriptor, download_trusted,
  prepare_synced, prepare_for, require_current_snapshot_for_unlocked_vault, prepare_local_mutation,
}
use engr_serverless_pm.Guard.Mutations.Facts.{
  IsCurrent, current_calls, IsReady, throw_if-Yields, is_current, IsCurrent-of_test, digest_before,
  Passed, Accessed, Found, Downloaded, Checked, IsSyncedAfter, IsSynced-of_calls,
}

module _ (env : Environment) (v : String) (u : UnlockedVault) where
  snapshot-test :
      (source : VersionVector)
      → Yields
          (λ s l. is_current env v u source s ≡ true)
          (require_current_snapshot_for_unlocked_vault env v u source)
  unfolding require_current_snapshot_for_unlocked_vault
  snapshot-test source h = ground arith

  snapshot-trace :
      (source : VersionVector)
      → Yields (Checked v u) (require_current_snapshot_for_unlocked_vault env v u source)
  unfolding require_current_snapshot_for_unlocked_vault
  snapshot-trace source h = ground arith

  snapshot-Yields :
      (source : VersionVector)
      → Yields
          (λ s l. IsCurrent env v u source s × (l ≡ current_calls v u s))
          (require_current_snapshot_for_unlocked_vault env v u source)
  snapshot-Yields source h =
      of_result (require_current_snapshot_for_unlocked_vault env v u source h)
        (snapshot-test source h) (snapshot-trace source h)
    where
      of_result :
          (r : Result VaultSnapshot × List Event)
          → Gives (λ s l. is_current env v u source s ≡ true) r.0 r.1
          → Gives (Checked v u) r.0 r.1
          → Gives (λ s l. IsCurrent env v u source s × (l ≡ current_calls v u s)) r.0 r.1
      of_result (ok s, l) c (trusted, is) = (
        IsCurrent-of_test env v u source s c,
        is
            ∙ ap
                (λ d.
                  snapshot_verified v s u.trusted_snapshot_context.trust (ok tt)
                  ∷ snapshot_digested s (ok d)
                  ∷ snapshot_read v (ok (some s))
                  ∷ [])
                ((eq_iff (digest_before l) u.trusted_snapshot_context.snapshot_digest).0 trusted),
      )
      of_result (err e, l) c t = tt

  access-Yields : Yields (Accessed v u) (require_sync_credential_state env v u)
  unfolding require_sync_credential_state
  access-Yields h = ground arith

  find-Yields :
      (s : VaultSnapshot) (access : SyncAccess)
      → Yields (Found v s access) (find_descriptor env v s access)
  find-Yields s access h = ground arith

  download-trace :
      (access : SyncAccess) (d : VaultSnapshotDescriptor)
      → Yields (Downloaded u access d) (download_trusted env v u access d)
  download-trace access d h = ground arith

  synced-Yields : (s : VaultSnapshot) → Yields (IsSyncedAfter v u s) (prepare_synced env v u s)
  synced-Yields s =
      Yields->>= (λ _ l. Passed (is_removal_pending u.vault.sync_removal_pending) l)
        (IsSyncedAfter v u s)
        (throw_if (is_removal_pending u.vault.sync_removal_pending)
          (sync_removal_pending v "modify vault data"))
        _ (throw_if-Yields _ _)
        (λ _ i passed.
          Yields->>= (Accessed v u) (λ t k. IsSyncedAfter v u s t (k ++ i))
            (require_sync_credential_state env v u) _ access-Yields
            (λ a j accessed.
              Yields->>= (λ _ l. Passed (has_pending a.state) l)
                (λ t k. IsSyncedAfter v u s t ((k ++ j) ++ i))
                (throw_if (has_pending a.state) (local_vault_snapshot_ahead v)) _
                (throw_if-Yields _ _)
                (λ _ m unmarked.
                  Yields->>= (Found v s a.sync_access)
                    (λ t k. IsSyncedAfter v u s t (((k ++ m) ++ j) ++ i))
                    (find_descriptor env v s a.sync_access) _ (find-Yields s a.sync_access)
                    (λ d n found.
                      Yields->>= (Downloaded u a.sync_access d)
                        (λ t k. IsSyncedAfter v u s t ((((k ++ n) ++ m) ++ j) ++ i))
                        (download_trusted env v u a.sync_access d) _
                        (download-trace a.sync_access d)
                        (λ p o downloaded h. (
                          refl,
                          IsSynced-of_calls v u s a d p i j m n o passed accessed unmarked found
                              downloaded,
                        ))))))

  for-Yields :
      (source : VersionVector) (s : VaultSnapshot) (t : Option SyncTarget) (l : List Event)
      → t ≡ u.vault.sync_target
      → IsCurrent env v u source s × (l ≡ current_calls v u s)
      → Yields (λ r k. IsReady env v u source r (k ++ l)) (prepare_for env v u s t)
  for-Yields source s none l e (c, is) h = (sym e, c, is)
  for-Yields source s (some t) l e (c, is) h =
      of_result (prepare_synced env v u s h) (synced-Yields s h)
    where
      of_result :
          (r : Result LocalMutationSyncState × List Event)
          → Gives (IsSyncedAfter v u s) r.0 r.1
          → Gives (λ r k. IsReady env v u source r (k ++ l)) r.0 r.1
      of_result (ok (unsynced x), k) so = absurd so
      of_result (ok (synced x access token remote), k) (same, so) = rw (same, is) (c, so)
      of_result (err x, k) so = tt

  prepare-Yields :
      (source : VersionVector)
      → Yields (IsReady env v u source) (prepare_local_mutation env v u source)
  unfolding prepare_local_mutation
  prepare-Yields source =
      Yields->>= (λ s l. IsCurrent env v u source s × (l ≡ current_calls v u s))
        (IsReady env v u source) (require_current_snapshot_for_unlocked_vault env v u source) _
        (snapshot-Yields source) (λ s l c. for-Yields source s u.vault.sync_target l refl c)

  -- A local mutation begins only when exactly these calls were made: a snapshot was read from the
  -- vault's storage, had the trusted digest and was verified against the trusted state, is at the
  -- version that the vault was read at, of the supported suite and with a key slot for the device;
  -- and if the vault has a sync target, of which then no removal is pending, the stored credential
  -- state was read and decrypted and has no marker of an upload, the latest remote descriptor was
  -- asked for with its credentials and is of the snapshot's revision, and what was downloaded for it
  -- has the trusted digest.
  pub prepare-IsReady :
      (source : VersionVector) (h : List Event) (s : LocalMutationSyncState)
      → (prepare_local_mutation env v u source h).0 ≡ ok s
      → IsReady env v u source s (prepare_local_mutation env v u source h).1
  prepare-IsReady source h s e =
      Gives-ok (IsReady env v u source) (prepare_local_mutation env v u source h).0
        (prepare_local_mutation env v u source h).1 s (prepare-Yields source h) e
