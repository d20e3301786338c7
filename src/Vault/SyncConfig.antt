-- ===== src/Vault/SyncConfig.antt =====
-- packages/core/src/domain/vault/vault-sync-config.mutations.ts
use engr_serverless_pm.Base.{ℕ, String, Option, none, some, List}
use engr_serverless_pm.Snapshot.{VaultSnapshotIdentity, VaultSnapshot}
use engr_serverless_pm.Vault.{Vault}

unfoldable pub mark_vault_sync_removal_pending :
    Vault → Option VaultSnapshotIdentity → VaultSnapshot → Vault
mark_vault_sync_removal_pending vault expected rollback_snapshot = record vault {
  sync_removal_pending = some (record {
    expected_remote_snapshot_identity = expected;
    rollback_snapshot = rollback_snapshot;
  });
}

unfoldable pub clear_vault_sync_removal_pending : Vault → Vault
clear_vault_sync_removal_pending vault = record vault { sync_removal_pending = none }

unfoldable pub mark_vault_provider_credential_revocation_pending : Vault → List String → ℕ → Vault
mark_vault_provider_credential_revocation_pending vault revoked_device_ids vault_key_generation =
    record vault {
      provider_credential_revocation_pending = some (record {
        revoked_device_ids = revoked_device_ids;
        vault_key_generation = vault_key_generation;
      });
    }

unfoldable pub clear_vault_provider_credential_revocation_pending : Vault → Vault
clear_vault_provider_credential_revocation_pending vault = record vault {
  provider_credential_revocation_pending = none;
}

unfoldable pub remove_vault_sync_target : Vault → Vault
remove_vault_sync_target vault = record vault {
  sync_target = none;
  sync_removal_pending = none;
  provider_credential_revocation_pending = none;
}
