-- ===== src/Sync/Review/Complete.antt =====
-- What a review shows: a row for each item that differs, and no other.
use engr_serverless_pm.Base.{
  String, ◌≡◌, refl, ap, inl, inr, true, false, ◌||◌, List, [], ◌∷◌, ◌++◌, map, Result, ok,
  >>=-eq-ok, arith, ◌==◌, eq_iff, Bool-cases, contains, contains-append, Distinct, Distinct-append,
}
use engr_serverless_pm.Vault.Collections.{All, All-append}
use engr_serverless_pm.Sync.{
  use_remote, VaultSyncItemRelation, ReviewableVaultSyncItemRelation, Reviewable, ReviewItem, Kind,
  reviewable_json_equal,
}
use engr_serverless_pm.Sync.Relation.{item_relation, Describes, item_relation-Describes}
use engr_serverless_pm.Sync.Review.{review_as, review_row, find_changed_from}

abbrev pub as_item_relation : ReviewableVaultSyncItemRelation → VaultSyncItemRelation
as_item_relation ReviewableVaultSyncItemRelation.remote_ahead = VaultSyncItemRelation.remote_ahead
as_item_relation ReviewableVaultSyncItemRelation.remote_only = VaultSyncItemRelation.remote_only

abbrev pub row_ids : {A : Type 0} → List (ReviewItem A) → List String
row_ids = map (λ row. row.id)

module _ {A : Type 0} (kind : Kind A)
    (find_local find_remote : String → Result (Reviewable A)) where
  -- A row shows the item's two states and how they stand, and preselects the remote one.
  pub record IsFaithful (row : ReviewItem A) : Type 0 where
    pub local_state : find_local row.id ≡ ok row.local
    pub remote_state : find_remote row.id ≡ ok row.remote
    pub stands : Describes kind (as_item_relation row.relation) row.local row.remote
    pub preselected : row.preselected_action ≡ use_remote

  -- Both states of an item are there, and have one JSON text.
  abbrev pub IsUnchanged : String → Type 0
  IsUnchanged i =
      (local : Reviewable A) × (remote : Reviewable A) × (find_local i ≡ ok local)
      × (find_remote i ≡ ok remote)
      × (reviewable_json_equal kind local remote ≡ true)

  -- What is shown of one item.
  record ShowsOne (i : String) (row : List (ReviewItem A)) : Type 0 where
    faithful : All IsFaithful row
    rest : contains (row_ids row) i ≡ false → IsUnchanged i
    own : (j : String) → contains (row_ids row) j ≡ true → i ≡ j
    once : Distinct (row_ids row)

  shows_row :
      (i : String) (local remote : Reviewable A) (relation : ReviewableVaultSyncItemRelation)
      → find_local i ≡ ok local
      → find_remote i ≡ ok remote
      → Describes kind (as_item_relation relation) local remote
      → ShowsOne i (review_as i relation local remote ∷ [])
  shows_row i local remote relation l r d = record {
    faithful = (record { local_state = l; remote_state = r; stands = d; preselected = refl }, tt);
    rest = λ absent. absurd (ground (arith, eq_iff i i));
    own = λ j m. ground (arith, eq_iff i j);
    once = (refl, tt);
  }

  shows_one :
      (i : String) (local remote : Reviewable A) (relation : VaultSyncItemRelation)
      (row : List (ReviewItem A))
      → find_local i ≡ ok local
      → find_remote i ≡ ok remote
      → Describes kind relation local remote
      → review_row i relation local remote ≡ ok row
      → ShowsOne i row
  shows_one i local remote VaultSyncItemRelation.equal row l r d e =
      let none_shown : [] ≡ row = ground arith in
      rw (← none_shown) (record {
        faithful = tt;
        rest = λ _. (local, remote, l, r, d);
        own = λ j m. absurd (ground arith);
        once = tt;
      })
  shows_one i local remote VaultSyncItemRelation.broken row l r d e = absurd (ground arith)
  shows_one i local remote VaultSyncItemRelation.remote_ahead row l r d e =
      let shown : review_as i ReviewableVaultSyncItemRelation.remote_ahead local remote ∷ [] ≡ row =
        ground arith in
      rw (← shown) (shows_row i local remote ReviewableVaultSyncItemRelation.remote_ahead l r d)
  shows_one i local remote VaultSyncItemRelation.remote_only row l r d e =
      let shown : review_as i ReviewableVaultSyncItemRelation.remote_only local remote ∷ [] ≡ row =
        ground arith in
      rw (← shown) (shows_row i local remote ReviewableVaultSyncItemRelation.remote_only l r d)

  -- What is shown of a list of items: faithful rows for some of them, at most one each if the list
  -- has no repetition, and none only for those that are unchanged.
  pub record ShowsAll (is : List String) (rows : List (ReviewItem A)) : Type 0 where
    pub faithful : All IsFaithful rows
    pub rest :
        (i : String) → contains is i ≡ true → contains (row_ids rows) i ≡ false → IsUnchanged i
    pub listed : (i : String) → contains (row_ids rows) i ≡ true → contains is i ≡ true
    pub once : Distinct is → Distinct (row_ids rows)

  row_ids-append : (xs ys : List (ReviewItem A)) → row_ids (xs ++ ys) ≡ row_ids xs ++ row_ids ys
  row_ids-append [] ys = refl
  row_ids-append (x ∷ xs) ys = ap (◌∷◌ x.id) (row_ids-append xs ys)

  shows_more :
      (i : String) (is : List String) (row rows : List (ReviewItem A))
      → ShowsOne i row
      → ShowsAll is rows
      → ShowsAll (i ∷ is) (row ++ rows)
  shows_more i is row rows one more =
      let split : (j : String)
          → contains (row_ids (row ++ rows)) j
            ≡ (contains (row_ids row) j || contains (row_ids rows) j) =
        λ j. rw (row_ids-append row rows) (contains-append (row_ids row) (row_ids rows) j) in
      record {
        faithful = All-append IsFaithful row rows one.faithful more.faithful;
        rest = λ j m absent. elim (Bool-cases (i == j)) [
          | inl same ↦
              let e = (eq_iff i j).0 same in rw (← e) (one.rest (rw e (ground (arith, split j))))
          | inr other ↦ more.rest j (ground arith) (ground (arith, split j))
        ];
        listed = λ j m. ground (arith, split j, one.own j, more.listed j, eq_iff i j);
        once = λ (new, d). rw (row_ids-append row rows) (
            Distinct-append (row_ids row) (row_ids rows) one.once (more.once d)
              (λ j m. ground (arith, one.own j m, more.listed j, new, eq_iff i j)));
      }

  -- A review that is not refused shows all items of the list that it runs over.
  pub find_changed-ShowsAll :
      (is : List String) (rows : List (ReviewItem A))
      → find_changed_from kind find_local find_remote is ≡ ok rows
      → ShowsAll is rows
  unfolding find_changed_from
  find_changed-ShowsAll [] rows e =
      let none_shown : [] ≡ rows = ground arith in
      rw (← none_shown) (record {
        faithful = tt;
        rest = λ i m. absurd (cc);
        listed = λ i m. absurd (cc);
        once = λ d. tt;
      })
  find_changed-ShowsAll (i ∷ is) rows e =
      let (local, l, e₁) = >>=-eq-ok (find_local i) _ e in
      let (remote, r, e₂) = >>=-eq-ok (find_remote i) _ e₁ in
      let relation = item_relation kind local remote in
      let (row, shown, e₃) = >>=-eq-ok (review_row i relation local remote) _ e₂ in
      let (more, found, e₄) = >>=-eq-ok (find_changed_from kind find_local find_remote is) _ e₃ in
      let total : row ++ more ≡ rows = ground arith in
      rw (← total) (
        shows_more i is row more
          (shows_one i local remote relation row l r (item_relation-Describes kind local remote)
            shown)
          (find_changed-ShowsAll is more found))
