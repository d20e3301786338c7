-- ===== src/Vault/Organization/Loops.antt =====
-- What the loops of vault-organization-reference.policy.ts accept.
use engr_serverless_pm.Base.{
  Error, String, ◌≡◌, refl, ap, ◌↔◌, Bool, true, false, not, ◌&&◌, ◌||◌, Option, some, List, [],
  ◌∷◌, map, Result, ok, err, ◌>>◌, arith, if◌then◌else◌, ◌==◌, any, contains, set_add, set_from,
}
use engr_serverless_pm.Vault.{Tag, TagGroup, Folder, PasswordEntry, tag_item, ids}
use engr_serverless_pm.Vault.Collections.{All}
use engr_serverless_pm.Vault.Folders.{uncategorized_folder_id, same_parent}
use engr_serverless_pm.Vault.Organization.{
  require_acyclic_folder, lacks_parent, require_entry_folders, require_tag_groups,
  require_tag_groups_unique, require_tags_unique, require_folder_tree,
}
use engr_serverless_pm.Vault.Organization.Sets.{Extends}
use engr_serverless_pm.Vault.Tree.{Rooted}
use engr_serverless_pm.Vault.Tree.Moves.{acyclic_iff}

pub both_ok : (m k : Result (Unit {0})) → ((m >> k) ≡ ok tt) ↔ ((m ≡ ok tt) × (k ≡ ok tt))
both_ok (ok tt) k = (λ e. (refl, e), λ h. h.1)
both_ok (err e) k = (λ h. absurd (cc), λ h. absurd (cc (h.0)))

-- A guard that throws is passed when its test fails.
pub guard_iff :
    {A : Type 0} (test : Bool) (e : Error) (rest : Result A) (a : A)
    → ((if test then err e else rest) ≡ ok a) ↔ ((test ≡ false) × (rest ≡ ok a))
guard_iff true e rest a = (λ h. absurd (cc), λ h. absurd (cc (h.0)))
guard_iff false e rest a = (λ h. (refl, h), λ h. h.1)

pub or_false_iff : (a b : Bool) → ((a || b) ≡ false) ↔ ((a ≡ false) × (b ≡ false))
or_false_iff true b = (λ h. absurd (cc), λ h. absurd (cc (h.0)))
or_false_iff false b = (λ h. (refl, h), λ h. h.1)

pub not-false_iff : (a : Bool) → (not a ≡ false) ↔ (a ≡ true)
not-false_iff true = (λ h. refl, λ h. refl)
not-false_iff false = (λ h. absurd (cc), λ h. absurd (cc))

pub tag_groups_iff :
    (group_ids : List String) (ts : List Tag)
    → (require_tag_groups group_ids ts ≡ ok tt) ↔ All (λ t. contains group_ids t.group_id ≡ true) ts
unfolding require_tag_groups
tag_groups_iff group_ids [] = (λ e. tt, λ h. refl)
tag_groups_iff group_ids (t ∷ ts) =
    let (to, from) = tag_groups_iff group_ids ts in
    let (passes, pass) = guard_iff (not (contains group_ids t.group_id)) _ _ tt in
    let (there, absent) = not-false_iff (contains group_ids t.group_id) in
    (
      λ e. let (known, rest) = passes e in (there known, to rest),
      λ (known, rest). pass (absent known, from rest),
    )

-- The entry's folder is there, or stands for no folder.
abbrev pub HasFolder : List String → PasswordEntry → Type 0
HasFolder folder_ids e =
    (e.folder_id == uncategorized_folder_id || contains folder_ids e.folder_id) ≡ true

pub entry_folders_iff :
    (folder_ids : List String) (es : List PasswordEntry)
    → (require_entry_folders folder_ids es ≡ ok tt) ↔ All (HasFolder folder_ids) es
unfolding require_entry_folders
entry_folders_iff folder_ids [] = (λ e. tt, λ h. refl)
entry_folders_iff folder_ids (e ∷ es) =
    let (to, from) = entry_folders_iff folder_ids es in
    let (passes, pass) =
      guard_iff
        (not (e.folder_id == uncategorized_folder_id) && not (contains folder_ids e.folder_id)) _ _
        tt in
    (
      λ h. let (known, rest) = passes h in (ground (arith, known), to rest),
      λ (known, rest). pass (ground (arith, known), from rest),
    )

module _ (normalized_name : String → String) where
  abbrev pub group_names : List TagGroup → List String
  group_names = map (λ g. normalized_name g.name)

  abbrev pub tag_names : List Tag → List String
  tag_names = map (λ t. normalized_name t.name)

  abbrev pub group_ids : List TagGroup → List String
  group_ids = map (λ g. g.id)

  pub groups_unique_iff :
      (seen names : List String) (gs : List TagGroup) (r : List String)
      → (require_tag_groups_unique normalized_name seen names gs ≡ ok r) ↔ (
          Extends seen (group_ids gs)
          × Extends names (group_names gs)
          × (set_from seen (group_ids gs) ≡ r))
  unfolding require_tag_groups_unique set_from
  groups_unique_iff seen names [] r = (λ e. (tt, tt, ground arith), λ (x, y, e). ap ok e)
  groups_unique_iff seen names (g ∷ gs) r =
      let (to, from) =
        groups_unique_iff (set_add seen g.id) (set_add names (normalized_name g.name)) gs r in
      let (passes, pass) =
        guard_iff (contains seen g.id || contains names (normalized_name g.name)) _ _ r in
      let (parts, whole) =
        or_false_iff (contains seen g.id) (contains names (normalized_name g.name)) in
      (
        λ e.
            let (new, rest) = passes e in
            let (x, y) = parts new in
            let (more, more_names, made) = to rest in ((x, more), (y, more_names), made),
        λ ((x, more), (y, more_names), made). pass (whole (x, y), from (more, more_names, made)),
      )

  pub tags_unique_iff :
      (deleted_ids seen names : List String) (ts : List Tag)
      → (require_tags_unique normalized_name deleted_ids seen names ts ≡ ok tt) ↔ (
          Extends seen (ids tag_item ts)
          × Extends names (tag_names ts)
          × All (λ t. contains deleted_ids t.id ≡ false) ts)
  unfolding require_tags_unique
  tags_unique_iff deleted_ids seen names [] = (λ e. (tt, tt, tt), λ h. refl)
  tags_unique_iff deleted_ids seen names (t ∷ ts) =
      let (to, from) =
        tags_unique_iff deleted_ids (set_add seen t.id) (set_add names (normalized_name t.name))
          ts in
      let named = contains names (normalized_name t.name) in
      let (passes, pass) =
        guard_iff (contains seen t.id || contains deleted_ids t.id || named) _ _ tt in
      let (parts, whole) = or_false_iff (contains seen t.id || contains deleted_ids t.id) named in
      let (own_parts, own_whole) = or_false_iff (contains seen t.id) (contains deleted_ids t.id) in
      (
        λ e.
            let (new, rest) = passes e in
            let (own, z) = parts new in
            let (x, y) = own_parts own in
            let (more, more_names, apart) = to rest in ((x, more), (z, more_names), (y, apart)),
        λ ((x, more), (z, more_names), (y, apart)).
            pass (whole (own_whole (x, y), z), from (more, more_names, apart)),
      )

  -- Two folders have one parent and one name.
  abbrev pub clash : Option String × String → Folder → Bool
  clash p f = same_parent p.0 f.parent_id && p.1 == normalized_name f.name

  abbrev pub place : Folder → Option String × String
  place f = (f.parent_id, normalized_name f.name)

  -- No folder has the parent and the name of one before it.
  abbrev pub DistinctSiblings : List Folder → Type 0
  DistinctSiblings [] = Unit {0}
  DistinctSiblings (f ∷ fs) = All (λ g. clash (place f) g ≡ false) fs × DistinctSiblings fs

  -- What the loop over the folders checks of each one, with the places that it has seen.
  abbrev pub Stands : List Folder → List String → List (Option String × String) → Folder → Type 0
  Stands folders folder_ids seen f =
      (lacks_parent folder_ids f.parent_id ≡ false)
      × Rooted folders (some f.id)
      × (any (λ p. clash p f) seen ≡ false)

  sift :
      (folders : List Folder) (folder_ids : List String) (p : Option String × String)
      (seen : List (Option String × String)) (fs : List Folder)
      → All (Stands folders folder_ids (p ∷ seen)) fs
        ↔ (All (Stands folders folder_ids seen) fs × All (λ g. clash p g ≡ false) fs)
  sift folders folder_ids p seen [] = (λ h. (tt, tt), λ h. tt)
  sift folders folder_ids p seen (f ∷ fs) =
      let (to, from) = sift folders folder_ids p seen fs in
      let (parts, whole) = or_false_iff (clash p f) (any (λ q. clash q f) seen) in
      (
        λ ((a, b, c), h).
            let (new, old) = parts c in
            let (rest, more) = to h in (((a, b, old), rest), (new, more)),
        λ (((a, b, old), rest), (new, more)). ((a, b, whole (new, old)), from (rest, more)),
      )

  pub folder_tree_iff :
      (folders : List Folder) (folder_ids : List String) (seen : List (Option String × String))
      (fs : List Folder)
      → (require_folder_tree normalized_name folders folder_ids seen fs ≡ ok tt)
        ↔ (All (Stands folders folder_ids seen) fs × DistinctSiblings fs)
  unfolding require_folder_tree
  folder_tree_iff folders folder_ids seen [] = (λ e. (tt, tt), λ h. refl)
  folder_tree_iff folders folder_ids seen (f ∷ fs) =
      let (to, from) = folder_tree_iff folders folder_ids (place f ∷ seen) fs in
      let (sifts, unsifts) = sift folders folder_ids (place f) seen fs in
      let (passes, pass) = guard_iff (lacks_parent folder_ids f.parent_id) _ _ tt in
      let (passes', pass') = guard_iff (any (λ p. clash p f) seen) _ _ tt in
      let (splits, joins) = both_ok (require_acyclic_folder folders f.id) _ in
      let (climbs, climbed) = acyclic_iff folders f.id in
      (
        λ e.
            let (a, e₁) = passes e in
            let (c, e₂) = passes' e₁ in
            let (b, e₃) = splits e₂ in
            let (stands, siblings) = to e₃ in
            let (rest, apart) = sifts stands in (((a, climbs b, c), rest), (apart, siblings)),
        λ (((a, b, c), rest), (apart, siblings)).
            pass (a, pass' (c, joins (climbed b, from (unsifts (rest, apart), siblings)))),
      )
