-- ===== src/Lib.antt =====
-- The core of a password manager without a server: packages/core of the repository, whose vaults are
-- kept on several devices and brought together by review. Paths below start at the repository's root.
--
-- What is modelled, and where:
--
--   Versioning      packages/core/src/domain/versioning. A version vector counts the changes of each
--                   device: `increment_version_vector`, `merge_version_vectors`,
--                   `compare_version_vectors`, `is_version_vector_ahead_of`. Its children read
--                   vectors after each operation (Vectors), say what a comparison means (Order) and
--                   how counts grow and are bounded (Bounds).
--   Snapshot        packages/core/src/domain/snapshot: descriptors and identities of snapshots.
--   Vault           packages/core/src/domain/vault, entry, organization, device-profile. The data of
--                   a vault; the mutations in Entries, Tags, Folders, Devices and SyncConfig; the
--                   checks in TagReferences, Organization and Identity. Sound and Validity say when a
--                   vault is valid and that the mutations keep it so; Tree is about the folder tree
--                   and the loops that climb it; History runs mutations one after another.
--   Sync            packages/core/src/domain/sync. Relation says how two states of an item stand,
--                   Review finds what a reviewer is shown (`findChangedEntries` and its like),
--                   Resolution makes of the choices the states to keep (`resolveEntryStates`,
--                   `buildResolvedVaultEntries` and their like), Apply puts a resolved vault together
--                   (`applyVaultSyncResolution`), KeySlots finds how the devices' key slots of two
--                   snapshots differ (`findChangesInKeySlots`). The source writes the code for entries, tags,
--                   folders and device profiles four times; here it is written once over a `Kind` of
--                   item, and each of the four is an instance.
--   Trust           packages/core/src/domain/device-trust: the records of the trust state.
--   Session         packages/core/src/domain/session (Types) and
--                   services/session/unlocked-vault-session.service.ts: Records reconciles, restores and
--                   removes a session's records, Service reads and removes sessions, Activation and
--                   Commits activate and keep them, Rollbacks restores persisted states and discards
--                   sessions. Calls has what the service calls; a field of the service is what its last
--                   write in the history of events says. The queue of session operations is the order of
--                   the history. Wiping a buffer is an event: that wiped bytes read as zero is not
--                   modelled.
--   Guard           packages/core/src/services/sync. Outcome reads what a provider answers
--                   (`sync-provider-outcome.policy.ts`); Types, Calls, Credentials, Uploads and
--                   Mutations are `VaultSyncGuardService`: staging the marker of an upload, starting the
--                   upload, clearing the marker, retrying, rolling back, and the checks before a local
--                   mutation. Mutations has the snapshot service's check of the current snapshot.
--   Base, Tests     shared names and lemmas; runs on concrete vaults.
--
-- How they interact: a device changes its copy of the vault with the mutations, each of which counts
-- the device once in the vault's vector and in the changed item's. Two copies that differ are compared
-- by their vectors, reviewed item by item, resolved by the reviewer's choices, and become one vault
-- whose vector is ahead of both.
--
-- Conventions. An exception is an `err` of `Result`; a message that differs is a constructor of the
-- fault. Objects from device identifiers to counts are association lists with distinct keys; a key
-- that is also a name of the prototype of all objects is left aside. Counts are natural numbers up to
-- 2^53, at which adding 1 changes nothing, as for JavaScript numbers. Timestamps are natural numbers.
-- The `while` loops that climb the folder tree run on fuel, two more than there are folders, which is
-- enough for any folders. Canonical JSON texts are compared field by field. What trims, normalizes and
-- lowers a name (`normalizedName`) is a parameter, as it stands on Unicode tables.
--
-- The guard waits for storage, cryptography, the provider and the session. Each wait is a call that an
-- environment answers by all that happened before (Base/Effects), so a theorem about every environment
-- is one about every failure and every interleaving with other contexts. A run gives what the code
-- returns or throws and the calls in their order. The session service's exclusive run is a call when it
-- begins and one when it ends; what it decides before a rollback is a call too, as is the trust service's
-- verification of a snapshot.
--
-- Not modelled: the user interface and the browser extension (apps/extension), cryptography, storage
-- and providers behind packages/core/src/ports, the schemas' limits on text lengths but those of tag
-- and folder identifiers, `cleanupActiveSession` and the services around the session service, and the
-- other services and use cases of packages/core/src, which compose the parts.
pub mod Base
pub mod Versioning
pub mod Snapshot
pub mod Vault
pub mod Trust
pub mod Session
pub mod Sync
pub mod Guard
pub mod Tests
