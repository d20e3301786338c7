-- ===== src/Vault/Sound.antt =====
-- When a collection of a vault is sound, and what adding, replacing and removing an item leaves so.
use engr_serverless_pm.Base.{
  String, ◌≡◌, ◌∙◌, true, false, ◌||◌, List, [], ◌∷◌, ◌++◌, arith, ◌==◌, eq_iff, contains,
  contains-append, Distinct, Distinct-append_one,
}
use engr_serverless_pm.Versioning.{VersionVector}
use engr_serverless_pm.Versioning.Order.{AtMost}
use engr_serverless_pm.Vault.{Item, Deleted, deleted_item, ids, some_id, without_id, replace_id}
use engr_serverless_pm.Vault.Collections.{
  All, All-append, All-filter, All-map, contains-ids, ids-append, contains-without,
  without-Distinct, ids-replace, All-replace,
}

-- No identifier is listed twice, nor both as active and as deleted.
pub record IsSeparate (active deleted : List String) : Type 0 where
  pub active_once : Distinct active
  pub deleted_once : Distinct deleted
  pub apart : (i : String) → contains active i ≡ true → contains deleted i ≡ false

module _ {A : Type 0} (item : Item A) where
  -- A collection is sound under a vector: identifiers are separate, and no item or tombstone has
  -- a count that the vector does not have.
  pub record IsSound (v : VersionVector) (active : List A) (deleted : List Deleted) : Type 0 where
    pub separate : IsSeparate (ids item active) (ids deleted_item deleted)
    pub active_covered : All (λ a. AtMost (item.version a) v) active
    pub deleted_covered : All (λ a. AtMost a.version_vector v) deleted

module _ {A : Type 0} (item : Item A) where
  weaken :
      (v w : VersionVector) (xs : List A)
      → AtMost v w
      → All (λ a. AtMost (item.version a) v) xs
      → All (λ a. AtMost (item.version a) w) xs
  weaken v w xs h = All-map _ _ (λ a k d. omega (arith, k d, h d)) xs

  pub ids-append_one :
      (xs : List A) (a : A) → ids item (xs ++ a ∷ []) ≡ ids item xs ++ item.id a ∷ []
  ids-append_one xs a = ids-append item xs (a ∷ [])

  contains-append_one :
      (xs : List A) (a : A) (j : String)
      → contains (ids item (xs ++ a ∷ [])) j ≡ (contains (ids item xs) j || (item.id a == j))
  contains-append_one xs a j =
      rw (ids-append_one xs a) (contains-append (ids item xs) (item.id a ∷ []) j ∙ ground arith)

  append_one-Distinct :
      (xs : List A) (a : A)
      → Distinct (ids item xs)
      → contains (ids item xs) (item.id a) ≡ false
      → Distinct (ids item (xs ++ a ∷ []))
  append_one-Distinct xs a d new = rw (ids-append_one xs a) (Distinct-append_one _ _ d new)

module _ {A : Type 0} (item : Item A) (v w : VersionVector) (grows : AtMost v w) where
  -- A larger vector covers what a smaller one does.
  pub IsSound-grow :
      (active : List A) (deleted : List Deleted)
      → IsSound item v active deleted
      → IsSound item w active deleted
  IsSound-grow active deleted s = record {
    separate = s.separate;
    active_covered = weaken item v w active grows s.active_covered;
    deleted_covered = weaken deleted_item v w deleted grows s.deleted_covered;
  }

  -- A new item joins the active ones, and its tombstone goes.
  pub IsSound-add :
      (active : List A) (deleted : List Deleted) (a : A)
      → IsSound item v active deleted
      → some_id item (item.id a) active ≡ false
      → AtMost (item.version a) w
      → IsSound item w (active ++ a ∷ []) (without_id deleted_item (item.id a) deleted)
  IsSound-add active deleted a s new covered = record {
    separate = record {
      active_once =
          append_one-Distinct item active a s.separate.active_once
            (contains-ids item active (item.id a) ∙ new);
      deleted_once = without-Distinct deleted_item (item.id a) deleted s.separate.deleted_once;
      apart = λ i m.
          contains-without deleted_item (item.id a) deleted i
          ∙ ground (
            arith,
            contains-append_one item active a i,
            s.separate.apart i,
            m,
            eq_iff (item.id a) i,
            eq_iff i (item.id a),
          );
    };
    active_covered =
        All-append _ active (a ∷ []) (weaken item v w active grows s.active_covered) (covered, tt);
    deleted_covered =
        All-filter _ _ deleted (weaken deleted_item v w deleted grows s.deleted_covered);
  }

  -- An active item is replaced by one with its identifier.
  pub IsSound-replace :
      (active : List A) (deleted : List Deleted) (i : String) (b : A)
      → IsSound item v active deleted
      → item.id b ≡ i
      → AtMost (item.version b) w
      → IsSound item w (replace_id item i b active) deleted
  IsSound-replace active deleted i b s e covered = record {
    separate = record {
      active_once = rw (ids-replace item i b active e) s.separate.active_once;
      deleted_once = s.separate.deleted_once;
      apart = rw (ids-replace item i b active e) s.separate.apart;
    };
    active_covered =
        All-replace item _ i b active (weaken item v w active grows s.active_covered) covered;
    deleted_covered = weaken deleted_item v w deleted grows s.deleted_covered;
  }

  -- An active item goes, and a tombstone takes the place of any that it had.
  pub IsSound-remove :
      (active : List A) (deleted : List Deleted) (t : Deleted)
      → IsSound item v active deleted
      → AtMost t.version_vector w
      → IsSound item w
          (without_id item t.id active)
          (without_id deleted_item t.id deleted ++ t ∷ [])
  IsSound-remove active deleted t s covered = record {
    separate = record {
      active_once = without-Distinct item t.id active s.separate.active_once;
      deleted_once =
          append_one-Distinct deleted_item _ t
            (without-Distinct deleted_item t.id deleted s.separate.deleted_once)
            (contains-without deleted_item t.id deleted t.id ∙ ground (arith, eq_iff t.id t.id));
      apart = λ i m.
          contains-append_one deleted_item (without_id deleted_item t.id deleted) t i
          ∙ ground (
            arith,
            contains-without deleted_item t.id deleted i,
            contains-without item t.id active i,
            s.separate.apart i,
            m,
            eq_iff t.id i,
            eq_iff i t.id,
          );
    };
    active_covered = All-filter _ _ active (weaken item v w active grows s.active_covered);
    deleted_covered =
        All-append _ _ (t ∷ [])
          (All-filter _ _ deleted (weaken deleted_item v w deleted grows s.deleted_covered))
          (covered, tt);
  }
