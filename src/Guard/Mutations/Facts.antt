-- ===== src/Guard/Mutations/Facts.antt =====
-- What is known once a local mutation may begin: the snapshot that it begins on, the remote one, and
-- the calls that have been made.
use engr_serverless_pm.Base.{
  Error, List, [], ◌∷◌, ◌++◌, String, ◌≡◌, refl, Bool, true, false, ◌&&◌, Option, none, some, ok,
  arith, eq_iff, any, ◌==◌,
}
use engr_serverless_pm.Base.Traces.{Yields}
use engr_serverless_pm.Versioning.{VersionVector, equal, get, compare_version_vectors}
use engr_serverless_pm.Snapshot.{
  VaultSnapshot, VaultSnapshotDescriptor, VaultSnapshotIdentity, SerializedEncrypted, is_equal,
  are_vault_snapshot_descriptors_equal, to_vault_snapshot_descriptor,
}
use engr_serverless_pm.Snapshot.Identity.{SameRevision, descriptors-equal_iff, is_equal-eq}
use engr_serverless_pm.Versioning.Order.{compare-eq_iff}
use engr_serverless_pm.Vault.{SyncRemovalPending}
use engr_serverless_pm.Session.Types.{UnlockedVault}
use engr_serverless_pm.Guard.Calls.{
  Event, snapshot_read, snapshot_digested, snapshot_verified, credential_state_read,
  credential_state_decrypted, descriptor_read, snapshot_downloaded, Environment,
}
use engr_serverless_pm.Guard.Types.{SyncAccess, DeviceSyncCredentialState}
use engr_serverless_pm.Guard.Credentials.{CredentialAccess, context_of, has_pending, throw_if}
use engr_serverless_pm.Guard.Mutations.{
  LocalMutationSyncState, unsynced, synced, is_removal_pending,
}

-- The snapshot is the unlocked vault's own, at the version that it was read at, and of the suite that
-- the program supports.
pub record IsCurrent (env : Environment) (v : String) (u : UnlockedVault) (source : VersionVector)
    (s : VaultSnapshot) : Type 0 where
  pub vault : u.vault_id ≡ v
  pub counts : (d : String) → get s.metadata.snapshot_version_vector d ≡ get source d
  pub suite : s.metadata.algorithm_suite_id ≡ env.algorithm_suite_id
  pub slot : any (λ k. k.device_id == u.device_id) s.device_slots ≡ true

-- The calls, newest first: the snapshot was read from the vault's storage, has the trusted digest, and
-- was verified against the trusted state.
abbrev pub current_calls : String → UnlockedVault → VaultSnapshot → List Event
current_calls v u s =
    snapshot_verified v s u.trusted_snapshot_context.trust (ok tt)
    ∷ snapshot_digested s (ok u.trusted_snapshot_context.snapshot_digest)
    ∷ snapshot_read v (ok (some s))
    ∷ []

-- The calls, newest first: the stored credential state was read and decrypted.
abbrev pub access_calls :
    String
    → UnlockedVault
    → SyncAccess
    → SerializedEncrypted
    → DeviceSyncCredentialState
    → List Event
access_calls v u access c state =
    credential_state_decrypted c u.device_local_protection_key (context_of v u access.target)
      (ok state)
    ∷ credential_state_read v (ok (some c))
    ∷ []

-- The calls, newest first: the latest descriptor was asked for, the snapshot that it describes was
-- downloaded, and has the trusted digest.
abbrev pub remote_calls :
    String → UnlockedVault → SyncAccess → VaultSnapshotDescriptor → VaultSnapshot → List Event
remote_calls v u access descriptor remote_snapshot =
    snapshot_digested remote_snapshot (ok u.trusted_snapshot_context.snapshot_digest)
    ∷ snapshot_downloaded access descriptor (ok remote_snapshot)
    ∷ descriptor_read access v (ok (some descriptor))
    ∷ []

-- No removal of the vault's target is pending; the access is the stored credential state's, which has
-- no marker of an upload; and the remote identity is of the local snapshot's revision and has the
-- trusted digest.
pub record IsSynced (v : String) (u : UnlockedVault) (s : VaultSnapshot) (access : SyncAccess)
    (c : SerializedEncrypted) (remote : VaultSnapshotIdentity) (l : List Event) : Type 0 where
  pub removal : u.vault.sync_removal_pending ≡ none
  pub target : u.vault.sync_target ≡ some access.target
  pub state : DeviceSyncCredentialState
  pub credentials : access.credentials ≡ state.current_credentials
  pub unmarked : state.pending_snapshot_upload ≡ none
  pub revision : SameRevision remote.descriptor (to_vault_snapshot_descriptor v s)
  pub digest : remote.snapshot_digest ≡ u.trusted_snapshot_context.snapshot_digest
  pub remote_snapshot : VaultSnapshot
  pub calls :
      l
      ≡ remote_calls v u access remote.descriptor remote_snapshot
        ++ (access_calls v u access c state ++ current_calls v u s)

-- What is known of the state that a mutation begins with, and of all the calls that were made.
abbrev pub IsReady :
    Environment
    → String
    → UnlockedVault
    → VersionVector
    → LocalMutationSyncState
    → List Event
    → Type 0
IsReady env v u source (unsynced s) l =
    (u.vault.sync_target ≡ none) × IsCurrent env v u source s × (l ≡ current_calls v u s)
IsReady env v u source (synced s access c remote) l =
    IsCurrent env v u source s × IsSynced v u s access c remote l

no_removal : (p : Option SyncRemovalPending) → is_removal_pending p ≡ false → p ≡ none
no_removal none h = refl
no_removal (some p) h = cc

no_marker :
    (s : DeviceSyncCredentialState) → has_pending s ≡ false → s.pending_snapshot_upload ≡ none
no_marker s h = ground arith

pub throw_if-Yields : (b : Bool) (e : Error) → Yields (λ _ l. (b ≡ false) × (l ≡ [])) (throw_if b e)
throw_if-Yields true e h = tt
throw_if-Yields false e h = (refl, refl)

abbrev pub is_current : Environment → String → UnlockedVault → VersionVector → VaultSnapshot → Bool
is_current env v u source s =
    u.vault_id == v
    && is_equal (compare_version_vectors s.metadata.snapshot_version_vector source)
    && s.metadata.algorithm_suite_id == env.algorithm_suite_id
    && any (λ k. k.device_id == u.device_id) s.device_slots

pub IsCurrent-of_test :
    (env : Environment) (v : String) (u : UnlockedVault) (source : VersionVector)
    (s : VaultSnapshot)
    → is_current env v u source s ≡ true
    → IsCurrent env v u source s
IsCurrent-of_test env v u source s c = record {
  vault = ground (arith, eq_iff u.vault_id v, c);
  counts =
      (compare-eq_iff equal s.metadata.snapshot_version_vector source).0
        (is_equal-eq _ (ground (arith, c)));
  suite = ground (arith, eq_iff s.metadata.algorithm_suite_id env.algorithm_suite_id, c);
  slot = ground (arith, c);
}

-- The digest that was computed before the last call.
abbrev pub digest_before : List Event → String
digest_before (_ ∷ snapshot_digested s (ok d) ∷ _) = d
digest_before _ = ""

abbrev pub Passed : Bool → List Event → Type 0
Passed b l = (b ≡ false) × (l ≡ [])

abbrev pub Accessed : String → UnlockedVault → CredentialAccess → List Event → Type 0
Accessed v u a l =
    (u.vault.sync_target ≡ some a.sync_access.target)
    × (a.sync_access.credentials ≡ a.state.current_credentials)
    × (l ≡ access_calls v u a.sync_access a.encrypted_state a.state)

abbrev pub Found :
    String → VaultSnapshot → SyncAccess → VaultSnapshotDescriptor → List Event → Type 0
Found v s access d l =
    (are_vault_snapshot_descriptors_equal d (to_vault_snapshot_descriptor v s) ≡ true)
    × (l ≡ descriptor_read access v (ok (some d)) ∷ [])

abbrev pub Downloaded :
    UnlockedVault
    → SyncAccess
    → VaultSnapshotDescriptor
    → VaultSnapshot × String
    → List Event
    → Type 0
Downloaded u access d p l =
    ((p.1 == u.trusted_snapshot_context.snapshot_digest) ≡ true)
    × (l ≡ snapshot_digested p.0 (ok p.1) ∷ snapshot_downloaded access d (ok p.0) ∷ [])

abbrev pub Checked : String → UnlockedVault → VaultSnapshot → List Event → Type 0
Checked v u s l =
    ((digest_before l == u.trusted_snapshot_context.snapshot_digest) ≡ true)
    × (l
        ≡ snapshot_verified v s u.trusted_snapshot_context.trust (ok tt)
          ∷ snapshot_digested s (ok (digest_before l))
          ∷ snapshot_read v (ok (some s))
          ∷ [])

-- What is known once the local snapshot's calls are put before.
abbrev pub IsSyncedAfter :
    String → UnlockedVault → VaultSnapshot → LocalMutationSyncState → List Event → Type 0
IsSyncedAfter v u s (unsynced t) k = ⊥
IsSyncedAfter v u s (synced t access c remote) k =
    (t ≡ s) × IsSynced v u s access c remote (k ++ current_calls v u s)

pub IsSynced-of_calls :
    (v : String) (u : UnlockedVault) (s : VaultSnapshot) (a : CredentialAccess)
    (d : VaultSnapshotDescriptor) (p : VaultSnapshot × String) (i j m n o : List Event)
    → Passed (is_removal_pending u.vault.sync_removal_pending) i
    → Accessed v u a j
    → Passed (has_pending a.state) m
    → Found v s a.sync_access d n
    → Downloaded u a.sync_access d p o
    → IsSynced v u s a.sync_access a.encrypted_state
        (record { descriptor = d; snapshot_digest = p.1 })
        (((((o ++ n) ++ m) ++ j) ++ i) ++ current_calls v u s)
IsSynced-of_calls v u s a d p i j m n o passed accessed unmarked found downloaded =
    let trusted : p.1 ≡ u.trusted_snapshot_context.snapshot_digest =
      (eq_iff p.1 u.trusted_snapshot_context.snapshot_digest).0 downloaded.0 in
    record {
      removal = no_removal u.vault.sync_removal_pending passed.0;
      target = accessed.0;
      state = a.state;
      credentials = accessed.1;
      unmarked = no_marker a.state unmarked.0;
      revision = (descriptors-equal_iff d (to_vault_snapshot_descriptor v s)).0 found.0;
      digest = trusted;
      remote_snapshot = p.0;
      calls = rw (passed.1, accessed.2, unmarked.1, found.1, downloaded.1, trusted) refl;
    }
