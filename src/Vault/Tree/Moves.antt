-- ===== src/Vault/Tree/Moves.antt =====
-- When packages/core/src/domain/vault/vault-folder.policy.ts lets a folder move, and what a change of
-- one folder's parent does to the tree.
use engr_serverless_pm.Base.{
  ℕ, zero, suc, String, ◌≡◌, refl, ◌↔◌, inl, inr, Bool, true, false, Option, none, some, List, [],
  ◌∷◌, ◌++◌, ok, arith, ◌==◌, eq_iff, Bool-cases, contains,
}
use engr_serverless_pm.Vault.{Vault, Folder}
use engr_serverless_pm.Vault.Folders.{
  finds_cycle, cycle_fuel, folder_by_id, parent_of, require_no_cycle,
  require_folder_move_does_not_create_cycle,
}
use engr_serverless_pm.Vault.Organization.{comes_back, require_acyclic_folder, require_not_back}
use engr_serverless_pm.Vault.Tree.{ancestor, ancestor-none, Avoids, Rooted}
use engr_serverless_pm.Vault.Tree.Climb.{comes_back_iff}

-- The loop of a move is that of the organization, started with the moved folder as visited.
finds_cycle-eq-comes_back :
    (fuel : ℕ) (folders : List Folder) (i : String) (visited : List String) (o : Option String)
    → finds_cycle fuel folders i visited o ≡ comes_back fuel folders (i ∷ visited) o
unfolding finds_cycle comes_back
finds_cycle-eq-comes_back fuel folders i visited none = refl
finds_cycle-eq-comes_back zero folders i visited (some c) = refl
finds_cycle-eq-comes_back (suc fuel) folders i visited (some c) = elim (Bool-cases (c == i)) [
  | inl met ↦ ground (arith, eq_iff c i, eq_iff i c)
  | inr other ↦ elim (Bool-cases (contains visited c)) [
    | inl seen ↦ ground (arith, eq_iff c i, eq_iff i c)
    | inr new ↦
        let apart : (i == c) ≡ false = ground (arith, eq_iff c i, eq_iff i c) in
        rw (other, new, apart)
          (finds_cycle-eq-comes_back fuel folders i (visited ++ c ∷ [])
            (parent_of (folder_by_id folders c)))
  ]
]

no_cycle_iff : (o : Option Bool) → (require_no_cycle o ≡ ok tt) ↔ (o ≡ some false)
no_cycle_iff none = (λ e. absurd (ground arith), λ e. absurd (ground arith))
no_cycle_iff (some true) = (λ e. absurd (ground arith), λ e. absurd (ground arith))
no_cycle_iff (some false) = (λ e. refl, λ e. refl)

-- A move is let through exactly when the climb from the new parent comes to an end without meeting
-- the folder.
pub move_iff :
    (vault : Vault) (i : String) (parent : Option String)
    → (require_folder_move_does_not_create_cycle vault i parent ≡ ok tt)
      ↔ (Rooted vault.folders parent × Avoids vault.folders i parent)
unfolding require_folder_move_does_not_create_cycle ancestor
move_iff vault i none = (
  λ e. ((zero, refl), λ k met. absurd (ground (arith, ancestor-none vault.folders k))),
  λ h. refl,
)
move_iff vault i (some p) =
    let loop : finds_cycle (cycle_fuel vault.folders) vault.folders i [] (some p)
        ≡ comes_back (cycle_fuel vault.folders) vault.folders (i ∷ []) (some p) =
      finds_cycle-eq-comes_back _ vault.folders i [] (some p) in
    let (to, from) = comes_back_iff vault.folders (i ∷ []) (some p) in
    let own : contains (i ∷ []) i ≡ true = ground (arith, eq_iff i i) in
    elim (Bool-cases (i == p)) [
      | inl same ↦
          rw same (λ e. absurd (ground arith), λ h. absurd (h.1 zero (ground (arith, eq_iff i p))))
      | inr other ↦
          rw (other, loop)
            (
              λ e. let (rooted, avoids) = to ((no_cycle_iff _).0 e) in (rooted, avoids i own),
              λ h.
                  (no_cycle_iff _).1
                    (from (h.0, λ j m. let same = (eq_iff i j).0 (ground arith) in rw same at h.1)),
            )
    ]

not_back_iff : (o : Option Bool) → (require_not_back o ≡ ok tt) ↔ (o ≡ some false)
not_back_iff none = (λ e. absurd (ground arith), λ e. absurd (ground arith))
not_back_iff (some true) = (λ e. absurd (ground arith), λ e. absurd (ground arith))
not_back_iff (some false) = (λ e. refl, λ e. refl)

-- A folder passes the check for cycles exactly when the climb from it comes to an end.
pub acyclic_iff :
    (folders : List Folder) (i : String)
    → (require_acyclic_folder folders i ≡ ok tt) ↔ Rooted folders (some i)
unfolding require_acyclic_folder
acyclic_iff folders i =
    let (to, from) = comes_back_iff folders [] (some i) in
    let (check, pass) = not_back_iff (comes_back (cycle_fuel folders) folders [] (some i)) in
    (λ e. (to (check e)).0, λ rooted. pass (from (rooted, λ j m. absurd (ground arith))))
