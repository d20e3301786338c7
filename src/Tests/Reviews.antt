-- ===== src/Tests/Reviews.antt =====
-- The laptop reviews the phone's copy of the vault and takes its changes.
use engr_serverless_pm.Base.{
  ◌≡◌, refl, Bool, true, false, List, [], ◌∷◌, Result, ok, err, ◌>>◌, OnOk, Map, arith,
}
use engr_serverless_pm.Versioning.{
  VersionVectorRelation, get, increment_version_vector, merge_version_vectors,
  compare_version_vectors,
}
use engr_serverless_pm.Vault.{Vault, PasswordEntry}
use engr_serverless_pm.Vault.Validity.{IsValid}
use engr_serverless_pm.Sync.{
  use_local, use_remote, ReviewableVaultSyncItemRelation, Reviewable, present, missing, ReviewItem,
  ReviewResolution, entry_kind, are_vectors_json_equal, get_version_vector,
}
use engr_serverless_pm.Sync.Review.{
  find_all_ids, find_changed_entries, find_changed_tags, find_changed_folders,
  find_changed_device_profiles,
}
use engr_serverless_pm.Sync.Apply.{
  VaultSyncReview, VaultSyncResolution, require_compatible, apply_vault_sync_resolution,
}
use engr_serverless_pm.Sync.Apply.Merged.{IsReviewOf}
use engr_serverless_pm.Sync.Apply.Sound.{
  IsResolution, apply-IsResolution, apply-IsValid, apply-ahead,
}
use engr_serverless_pm.Sync.Apply.Combined.{Combines}
use engr_serverless_pm.Sync.Apply.Accepted.{AcceptsAll, apply_of_AcceptsAll}
use engr_serverless_pm.Sync.Apply.Shown.{ShowsVaults, review-ShowsVaults}
use engr_serverless_pm.Sync.Relation.{
  vector_relation, review_of, vector_relation-compare, Describes, item_relation, version_of,
  item_relation-Describes,
}
use engr_serverless_pm.Sync.Resolution.{resolve_states, stamp_state}
use engr_serverless_pm.Sync.Resolution.Resolved.{
  Accepts, Resolves, resolve_states-Resolves, resolve_states_of_Accepts,
}
use engr_serverless_pm.Sync.Resolution.Built.{stamp_state-ahead}
use engr_serverless_pm.Tests.Vaults.{
  entry, laptop_1, laptop_2, both_2_1, on_laptop, on_phone, on_laptop-IsValid, on_phone-IsValid,
}

abbrev mail_row : ReviewItem PasswordEntry
mail_row = record {
  id = "mail";
  relation = ReviewableVaultSyncItemRelation.remote_ahead;
  local = present (entry "mail" "old" laptop_1);
  remote = present (entry "mail" "new" (("laptop", 1) ∷ ("phone", 1) ∷ []));
  preselected_action = use_remote;
}

abbrev chat_row : ReviewItem PasswordEntry
chat_row = record {
  id = "chat";
  relation = ReviewableVaultSyncItemRelation.remote_only;
  local = missing;
  remote = present (entry "chat" "fresh" (("phone", 1) ∷ []));
  preselected_action = use_remote;
}

abbrev review : VaultSyncReview
review = record {
  entry_reviews = mail_row ∷ chat_row ∷ [];
  tag_reviews = [];
  folder_reviews = [];
  device_profile_reviews = [];
}

-- The phone's new password is refused, its new entry taken.
abbrev choices : List ReviewResolution
choices =
    (record { id = "chat"; action = use_remote })
    ∷ (record { id = "mail"; action = use_local })
    ∷ []

abbrev resolution : VaultSyncResolution
resolution = record {
  entry_resolutions = choices;
  tag_resolutions = [];
  folder_resolutions = [];
  device_profile_resolutions = [];
}

review-IsReviewOf : IsReviewOf on_laptop on_phone review
unfolding find_changed_entries find_changed_tags find_changed_folders find_changed_device_profiles
    are_vectors_json_equal
review-IsReviewOf = record { entries = refl; tags = refl; folders = refl; device_profiles = refl }

abbrev is_ok : {A : Type 0} → Result A → Bool
is_ok (ok a) = true
is_ok (err e) = false

resolution_accepted :
    is_ok (apply_vault_sync_resolution (λ s. s) on_laptop on_phone review resolution "laptop")
    ≡ true
unfolding apply_vault_sync_resolution find_all_ids
resolution_accepted = refl

abbrev merged_entries : List PasswordEntry
merged_entries =
    entry "mail" "old" (("laptop", 2) ∷ ("phone", 1) ∷ [])
    ∷ entry "shop" "same" laptop_2
    ∷ entry "chat" "fresh" (("phone", 1) ∷ ("laptop", 1) ∷ [])
    ∷ []

entries_of : Result Vault → List PasswordEntry
entries_of (ok vault) = vault.entries
entries_of (err e) = []

merged :
    entries_of (apply_vault_sync_resolution (λ s. s) on_laptop on_phone review resolution "laptop")
    ≡ merged_entries
unfolding apply_vault_sync_resolution find_all_ids entries_of increment_version_vector
    merge_version_vectors
merged = refl

choices-Accepts : Accepts (mail_row ∷ chat_row ∷ []) choices
choices-Accepts = record {
  formed = ((λ e. cc), refl, ((λ e. cc), refl, tt));
  reviewed = (refl, (refl, tt));
  complete = (
    (record { id = "mail"; action = use_local }, refl, refl),
    ((record { id = "chat"; action = use_remote }, refl, refl), tt),
  );
}

nothing-Accepts : {A : Type 0} → Accepts {A = A} [] []
nothing-Accepts = record { formed = tt; reviewed = tt; complete = tt }

resolution-AcceptsAll : AcceptsAll review resolution
resolution-AcceptsAll = record {
  entries = choices-Accepts;
  tags = nothing-Accepts;
  folders = nothing-Accepts;
  device_profiles = nothing-Accepts;
}

apply-IsResolution_example :
    OnOk
      (IsResolution (λ s. s) on_laptop on_phone review resolution "laptop")
      (apply_vault_sync_resolution (λ s. s) on_laptop on_phone review resolution "laptop")
apply-IsResolution_example =
    apply-IsResolution (λ s. s) on_laptop on_phone review resolution "laptop" on_laptop-IsValid
      on_phone-IsValid review-IsReviewOf

apply-IsValid_example :
    OnOk IsValid
      (apply_vault_sync_resolution (λ s. s) on_laptop on_phone review resolution "laptop")
apply-IsValid_example =
    apply-IsValid (λ s. s) on_laptop on_phone review resolution "laptop" on_laptop-IsValid
      on_phone-IsValid review-IsReviewOf

apply-ahead_example :
    OnOk
      (λ resolved.
        (compare_version_vectors resolved.version_vector laptop_2
          ≡ VersionVectorRelation.local_ahead)
        × (compare_version_vectors resolved.version_vector both_2_1
            ≡ VersionVectorRelation.local_ahead))
      (apply_vault_sync_resolution (λ s. s) on_laptop on_phone review resolution "laptop")
unfolding get
apply-ahead_example =
    apply-ahead (λ s. s) on_laptop on_phone review resolution "laptop" on_laptop-IsValid
      on_phone-IsValid review-IsReviewOf (omega arith) (omega arith)

apply_of_AcceptsAll_example :
    (resolved : Vault) × Combines on_laptop on_phone review resolution "laptop" resolved
    × (apply_vault_sync_resolution (λ s. s) on_laptop on_phone review resolution "laptop"
        ≡ (require_compatible (λ s. s) resolved >> ok resolved))
apply_of_AcceptsAll_example =
    apply_of_AcceptsAll (λ s. s) on_laptop on_phone review resolution "laptop" on_laptop-IsValid
      on_phone-IsValid review-IsReviewOf resolution-AcceptsAll

review-ShowsVaults_example : ShowsVaults on_laptop on_phone review
review-ShowsVaults_example = review-ShowsVaults on_laptop on_phone review review-IsReviewOf

resolve_states_of_Accepts_example :
    (resolved : Map (Reviewable PasswordEntry)) × (resolve_states entry_kind
        (mail_row ∷ chat_row ∷ [])
        choices
        "laptop"
      ≡ ok resolved)
resolve_states_of_Accepts_example =
    resolve_states_of_Accepts entry_kind "laptop" (mail_row ∷ chat_row ∷ []) choices choices-Accepts

abbrev resolved_states : Map (Reviewable PasswordEntry)
resolved_states =
    ("mail", present (entry "mail" "old" (("laptop", 2) ∷ ("phone", 1) ∷ [])))
    ∷ ("chat", present (entry "chat" "fresh" (("phone", 1) ∷ ("laptop", 1) ∷ [])))
    ∷ []

resolves :
    resolve_states entry_kind (mail_row ∷ chat_row ∷ []) choices "laptop" ≡ ok resolved_states
unfolding resolve_states increment_version_vector merge_version_vectors
resolves = refl

resolve_states-Resolves_example :
    Resolves entry_kind "laptop" (mail_row ∷ chat_row ∷ []) choices resolved_states
resolve_states-Resolves_example =
    resolve_states-Resolves entry_kind "laptop" (mail_row ∷ chat_row ∷ []) choices resolved_states
      (refl, (refl, tt)) resolves

stamp_state-ahead_example :
    (compare_version_vectors
        (version_of entry_kind
          (stamp_state entry_kind mail_row.local mail_row.local mail_row.remote "laptop"))
        (version_of entry_kind mail_row.local)
      ≡ VersionVectorRelation.local_ahead)
    × (compare_version_vectors
          (version_of entry_kind
            (stamp_state entry_kind mail_row.local mail_row.local mail_row.remote "laptop"))
          (version_of entry_kind mail_row.remote)
        ≡ VersionVectorRelation.local_ahead)
unfolding get get_version_vector
stamp_state-ahead_example =
    stamp_state-ahead entry_kind mail_row.local mail_row.local mail_row.remote "laptop" (λ e. cc)
      (omega arith) (omega arith)

vector_relation-compare_example :
    vector_relation laptop_1 both_2_1 ≡ review_of (compare_version_vectors laptop_1 both_2_1)
vector_relation-compare_example = vector_relation-compare laptop_1 both_2_1

item_relation-Describes_example :
    Describes entry_kind
      (item_relation entry_kind chat_row.local chat_row.remote)
      chat_row.local
      chat_row.remote
item_relation-Describes_example = item_relation-Describes entry_kind chat_row.local chat_row.remote
