-- ===== src/Tests/Mutations.antt =====
-- Changes of a vault, one after another.
use engr_serverless_pm.Base.{
  ◌≡◌, ◌≢◌, refl, true, none, some, List, [], ◌∷◌, Result, ok, err, ◌>>=◌, >>=-eq-ok, arith,
  vault_folder_cycle,
}
use engr_serverless_pm.Vault.{Vault, tag_item, ids, PasswordEntryInput}
use engr_serverless_pm.Vault.Entries.{add_password_entry_to_vault}
use engr_serverless_pm.Vault.Devices.{add_device_profile_to_vault}
use engr_serverless_pm.Vault.Folders.{
  move_folder_in_vault, require_folder_move_does_not_create_cycle,
}
use engr_serverless_pm.Vault.Organization.{require_valid_vault_organization, comes_back}
use engr_serverless_pm.Vault.Organization.Valid.{IsOrganized}
use engr_serverless_pm.Vault.Organization.Exact.{organization_iff}
use engr_serverless_pm.Vault.Collections.{All}
use engr_serverless_pm.Vault.TagReferences.{require_valid_vault_tag_references}
use engr_serverless_pm.Vault.TagReferences.Exact.{AreListed, tag_references_iff}
use engr_serverless_pm.Vault.Tree.{Rooted, Avoids}
use engr_serverless_pm.Vault.Tree.Climb.{comes_back-some}
use engr_serverless_pm.Vault.Tree.Moves.{move_iff}
use engr_serverless_pm.Vault.Tree.Kept.{IsTree}
use engr_serverless_pm.Vault.History.{Mutation, perform, Reachable}
use engr_serverless_pm.Vault.History.Invariant.{IsSane, Reachable-IsSane}
use engr_serverless_pm.Tests.Vaults.{on_laptop, on_laptop-IsValid, folder}

on_laptop_passes : require_valid_vault_organization (λ s. s) on_laptop ≡ ok tt
unfolding require_valid_vault_organization
on_laptop_passes = refl

-- The vault's entries name its tags only.
on_laptop_listed : require_valid_vault_tag_references on_laptop ≡ ok tt
unfolding require_valid_vault_tag_references
on_laptop_listed = refl

tag_references_iff_example :
    All (λ e. AreListed (ids tag_item on_laptop.tags) e.tags) on_laptop.entries
tag_references_iff_example = (tag_references_iff on_laptop).0 on_laptop_listed

organization_iff_example : IsOrganized (λ s. s) on_laptop
organization_iff_example = (organization_iff (λ s. s) on_laptop).0 on_laptop_passes

on_laptop-IsTree : IsTree on_laptop.folders
on_laptop-IsTree = organization_iff_example.tree

-- A folder does not move below itself.
cycle_refused :
    move_folder_in_vault (λ s. s) on_laptop "home" (some "bank") "laptop" ≡ err vault_folder_cycle
unfolding move_folder_in_vault
cycle_refused = refl

bank_moves : require_folder_move_does_not_create_cycle on_laptop "bank" (some "home") ≡ ok tt
unfolding require_folder_move_does_not_create_cycle
bank_moves = refl

move_iff_example :
    Rooted on_laptop.folders (some "home") × Avoids on_laptop.folders "bank" (some "home")
move_iff_example = (move_iff on_laptop "bank" (some "home")).0 bank_moves

-- Even a loop among the folders is found within the fuel.
comes_back-some_example :
    comes_back 3 (folder "a" "A" (some "b") ∷ folder "b" "B" (some "a") ∷ []) [] (some "a") ≢ none
comes_back-some_example =
    comes_back-some (folder "a" "A" (some "b") ∷ folder "b" "B" (some "a") ∷ []) 3 [] (some "a")
      (omega arith)

loop_found :
    comes_back 3 (folder "a" "A" (some "b") ∷ folder "b" "B" (some "a") ∷ []) [] (some "a")
    ≡ some true
unfolding comes_back
loop_found = refl

abbrev note : PasswordEntryInput
note = record {
  password = "secret";
  login = "me";
  tags = [];
  sanitized_url = "";
  folder_id = "bank";
}

-- The laptop adds an entry, the phone joins and moves a folder, the laptop removes the entry.
abbrev moved_and_removed : List Mutation
moved_and_removed =
    Mutation.add_entry "note" note "laptop"
    ∷ Mutation.add_device "phone" "Phone" 7
    ∷ Mutation.move_folder "bank" none "phone"
    ∷ Mutation.remove_entry "note" "laptop" 9
    ∷ []

perform_all : Vault → List Mutation → Result Vault
unfolding perform
perform_all vault [] = ok vault
perform_all vault (m ∷ ms) = do after ← perform (λ s. s) vault m; perform_all after ms

perform_all-Reachable :
    (first vault after : Vault) (ms : List Mutation)
    → Reachable (λ s. s) first vault
    → perform_all vault ms ≡ ok after
    → Reachable (λ s. s) first after
unfolding perform_all
perform_all-Reachable first vault after [] path e =
    let same : vault ≡ after = cc in rw (← same) path
perform_all-Reachable first vault after (m ∷ ms) path e =
    let (next, done, rest) = >>=-eq-ok (perform (λ s. s) vault m) _ e in
    perform_all-Reachable first next after ms (Reachable.step path m done) rest

outcome : (after : Vault) × (perform_all on_laptop moved_and_removed ≡ ok after)
unfolding perform_all add_password_entry_to_vault add_device_profile_to_vault move_folder_in_vault
outcome = (_, refl)

Reachable-IsSane_example : IsSane on_laptop outcome.0
Reachable-IsSane_example =
    Reachable-IsSane (λ s. s) on_laptop outcome.0 on_laptop-IsValid on_laptop-IsTree
      (perform_all-Reachable on_laptop on_laptop outcome.0 moved_and_removed Reachable.here
        outcome.1)
