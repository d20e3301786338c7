-- ===== src/Guard/Outcome/Exact.antt =====
-- Which answers of a provider are read as which outcome.
use mathlib.Core.Path.{subst}
use engr_serverless_pm.Base.{
  String, ◌≡◌, refl, ◌↔◌, ◌⊎◌, inl, inr, true, List, [], ◌∷◌, Error, Result, ok, err, ◌>>=◌, ◌>>◌,
  >>=-eq-ok, arith, ◌==◌, eq_iff, some, Bool-cases,
}
use engr_serverless_pm.Guard.Types.{complete}
use engr_serverless_pm.Guard.Outcome.{
  plain, null_prototype, other_prototype, PropertyKey, name, symbol, Property, text, not_text,
  accessor, ProviderValue, text_value, object, throwing, not_object, SyncUploadOutcome, committed,
  outcome_unknown, definitely_not_committed, NonCommitReason, remote_snapshot_changed,
  provider_rejected, reason_text, decode_sync_provider_upload_outcome,
  resolve_sync_provider_upload_status, require_exact_keys, require_data_property, data_value,
  is_text, decode_status, non_commit, reason_of, status_of, unknown_on_error,
}

-- The own properties of an object that is the outcome, in either order.
abbrev pub IsOutcome : SyncUploadOutcome → List (PropertyKey × Property) → Type 0
IsOutcome committed own = own ≡ (name "status", text "committed") ∷ []
IsOutcome outcome_unknown own = own ≡ (name "status", text "outcome_unknown") ∷ []
IsOutcome (definitely_not_committed reason) own =
    (own
      ≡ (name "status", text "definitely_not_committed")
        ∷ (name "reason", text (reason_text reason))
        ∷ [])
    ⊎ (own
        ≡ (name "reason", text (reason_text reason))
          ∷ (name "status", text "definitely_not_committed")
          ∷ [])

abbrev pub Represents : ProviderValue → SyncUploadOutcome → Type 0
Represents (object plain own) o = IsOutcome o own
Represents (object null_prototype own) o = IsOutcome o own
Represents _ o = ⊥

value-eq : (k : PropertyKey) (x u : Property) → data_value (some (k, x)) ≡ ok u → x ≡ u
value-eq k (text t) u h = cc
value-eq k not_text u h = cc
value-eq k accessor u h = cc

refused : {A : Type 0} {thrown : Error} {a : A} → err thrown ≡ ok a → ⊥
refused h = cc

status_only :
    (own : List (PropertyKey × Property)) (u : Property)
    → require_exact_keys own ("status" ∷ []) ≡ ok tt
    → require_data_property own "status" ≡ ok u
    → own ≡ (name "status", u) ∷ []
unfolding require_exact_keys require_data_property
status_only [] u keys at = cc
status_only ((name n, x) ∷ []) u keys at = elim (Bool-cases (n == "status")) [
  | inl e ↦
      let same : x ≡ u = value-eq (name n) x u (rw e at at) in rw ((eq_iff n "status").0 e, same)
  | inr e ↦ absurd (ground (arith, keys, e))
]
status_only ((symbol, x) ∷ []) u keys at = cc
status_only (a ∷ b ∷ own) u keys at = absurd (ground (arith, keys))

two_keys :
    (own : List (PropertyKey × Property)) (u v : Property)
    → require_exact_keys own ("status" ∷ "reason" ∷ []) ≡ ok tt
    → require_data_property own "status" ≡ ok u
    → require_data_property own "reason" ≡ ok v
    → (own ≡ (name "status", u) ∷ (name "reason", v) ∷ [])
      ⊎ (own ≡ (name "reason", v) ∷ (name "status", u) ∷ [])
unfolding require_exact_keys require_data_property
two_keys [] u v keys at_status at_reason = cc
two_keys (a ∷ []) u v keys at_status at_reason = absurd (ground (arith, keys))
two_keys ((name n, x) ∷ (name m, y) ∷ []) u v keys at_status at_reason =
    elim (Bool-cases (n == "status")) [
      | inl e ↦ elim (Bool-cases (m == "reason")) [
        | inl f ↦
            let n_is = (eq_iff n "status").0 e in
            let m_is = (eq_iff m "reason").0 f in
            inl (
              rw (
                n_is,
                m_is,
                value-eq (name n) x u (rw e at at_status),
                value-eq (name m) y v (rw (n_is, f) at at_reason),
              ))
        | inr f ↦ absurd (refused (rw ((eq_iff n "status").0 e, f) at at_reason))
      ]
      | inr e ↦ elim (Bool-cases (n == "reason")) [
        | inl g ↦ elim (Bool-cases (m == "status")) [
          | inl f ↦ inr (
              rw (
                (eq_iff n "reason").0 g,
                (eq_iff m "status").0 f,
                value-eq (name m) y u (rw (e, f) at at_status),
                value-eq (name n) x v (rw g at at_reason),
              ))
          | inr f ↦ absurd (refused (rw (e, f) at at_status))
        ]
        | inr g ↦ absurd (
            ground (
              arith,
              keys,
              eq_iff n "status",
              eq_iff "status" n,
              eq_iff n "reason",
              eq_iff "reason" n,
              e,
              g,
            ))
      ]
    ]
two_keys ((name n, x) ∷ (symbol, y) ∷ []) u v keys at_status at_reason =
    absurd (ground (arith, keys))
two_keys ((symbol, x) ∷ b ∷ []) u v keys at_status at_reason = absurd (ground (arith, keys))
two_keys (a ∷ b ∷ c ∷ own) u v keys at_status at_reason = absurd (ground (arith, keys))

text-eq : (u : Property) (t : String) → is_text u t ≡ true → u ≡ text t
text-eq (text v) t h = ground (arith, eq_iff v t, h)
text-eq not_text t h = cc
text-eq accessor t h = cc

only_status :
    (own : List (PropertyKey × Property)) (t : String) (o o' : SyncUploadOutcome)
    → require_data_property own "status" ≡ ok (text t)
    → (require_exact_keys own ("status" ∷ []) >> ok o) ≡ ok o'
    → (o ≡ o') × (own ≡ (name "status", text t) ∷ [])
only_status own t o o' at h =
    let (_, keys, is) = >>=-eq-ok (require_exact_keys own ("status" ∷ [])) (λ _. ok o) h in
    (cc, status_only own (text t) keys at)

reason-eq : (v : Property) (r : NonCommitReason) → reason_of v ≡ ok r → v ≡ text (reason_text r)
reason-eq v r h = elim (Bool-cases (is_text v "remote_snapshot_changed")) [
  | inl e ↦
      let is : ok remote_snapshot_changed ≡ ok r = rw e at h in
      let same : remote_snapshot_changed ≡ r = cc in
      rw (← same) (text-eq v "remote_snapshot_changed" e)
  | inr e ↦ elim (Bool-cases (is_text v "provider_rejected")) [
    | inl f ↦
        let is : ok provider_rejected ≡ ok r = rw (e, f) at h in
        let same : provider_rejected ≡ r = cc in rw (← same) (text-eq v "provider_rejected" f)
    | inr f ↦ absurd (refused (rw (e, f) at h))
  ]
]

non_committed :
    (own : List (PropertyKey × Property)) (o : SyncUploadOutcome)
    → require_data_property own "status" ≡ ok (text "definitely_not_committed")
    → non_commit own ≡ ok o
    → IsOutcome o own
non_committed own o at h =
    let (_, keys, rest) = >>=-eq-ok (require_exact_keys own ("status" ∷ "reason" ∷ [])) _ h in
    let (v, at_reason, rest') = >>=-eq-ok (require_data_property own "reason") _ rest in
    let (r, is_reason, is) = >>=-eq-ok (reason_of v) _ rest' in
    let same : definitely_not_committed r ≡ o = cc in
    let v_is = reason-eq v r is_reason in
    subst (λ o. IsOutcome o own) same
      (two_keys own (text "definitely_not_committed") (text (reason_text r)) keys at
        (rw v_is at at_reason))

decoded :
    (own : List (PropertyKey × Property)) (o : SyncUploadOutcome)
    → (require_data_property own "status" >>= λ status. decode_status own status) ≡ ok o
    → IsOutcome o own
decoded own o h =
    let (status, at, rest) = >>=-eq-ok (require_data_property own "status") (decode_status own) h in
    of_status status at rest
  where
    of_status :
        (u : Property)
        → require_data_property own "status" ≡ ok u
        → decode_status own u ≡ ok o
        → IsOutcome o own
    of_status u at rest = elim (Bool-cases (is_text u "committed")) [
      | inl e ↦
          let is = text-eq u "committed" e in
          let (same, only) = only_status own "committed" committed o (rw is at at) (rw e at rest) in
          subst (λ o. IsOutcome o own) same only
      | inr e ↦ elim (Bool-cases (is_text u "outcome_unknown")) [
        | inl f ↦
            let is = text-eq u "outcome_unknown" f in
            let (same, only) =
              only_status own "outcome_unknown" outcome_unknown o (rw is at at)
                (rw (e, f) at rest) in
            subst (λ o. IsOutcome o own) same only
        | inr f ↦ elim (Bool-cases (is_text u "definitely_not_committed")) [
          | inl g ↦
              let is = text-eq u "definitely_not_committed" g in
              non_committed own o (rw is at at) (rw (e, f, g) at rest)
          | inr g ↦ absurd (refused (rw (e, f, g) at rest))
        ]
      ]
    ]

non_commit_read :
    (own : List (PropertyKey × Property)) (r : NonCommitReason)
    → IsOutcome (definitely_not_committed r) own
    → decode_sync_provider_upload_outcome (object plain own) ≡ ok (definitely_not_committed r)
unfolding decode_sync_provider_upload_outcome
non_commit_read own remote_snapshot_changed (inl h) = rw h
non_commit_read own remote_snapshot_changed (inr h) = rw h
non_commit_read own provider_rejected (inl h) = rw h
non_commit_read own provider_rejected (inr h) = rw h

encoded :
    (value : ProviderValue) (o : SyncUploadOutcome)
    → Represents value o
    → decode_sync_provider_upload_outcome value ≡ ok o
unfolding decode_sync_provider_upload_outcome
encoded (object plain own) committed h = rw h
encoded (object null_prototype own) committed h = rw h
encoded (object plain own) outcome_unknown h = rw h
encoded (object null_prototype own) outcome_unknown h = rw h
encoded (object plain own) (definitely_not_committed r) h = non_commit_read own r h
encoded (object null_prototype own) (definitely_not_committed r) h = non_commit_read own r h
encoded (object other_prototype own) o h = absurd h
encoded (text_value t) o h = absurd h
encoded throwing o h = absurd h
encoded not_object o h = absurd h

-- What a provider answers is read as an outcome exactly when it is an object with no prototype but
-- the plain one, whose own properties are the outcome's status, and its reason if it was definitely
-- not committed, in any order, and nothing else.
pub decode_outcome_iff :
    (value : ProviderValue) (o : SyncUploadOutcome)
    → (decode_sync_provider_upload_outcome value ≡ ok o) ↔ Represents value o
unfolding decode_sync_provider_upload_outcome
decode_outcome_iff value o = (represents value, encoded value o)
  where
    represents : (v : ProviderValue) → decode_sync_provider_upload_outcome v ≡ ok o → Represents v o
    represents (object plain own) h = decoded own o h
    represents (object null_prototype own) h = decoded own o h
    represents (object other_prototype own) h = absurd (refused h)
    represents (text_value t) h = absurd (refused h)
    represents throwing h = absurd (refused h)
    represents not_object h = absurd (refused h)

-- An upload is complete exactly when the provider's answer is that it committed.
pub status-complete_iff :
    (vault_id : String) (value : ProviderValue)
    → (resolve_sync_provider_upload_status vault_id value ≡ ok complete)
      ↔ Represents value committed
unfolding resolve_sync_provider_upload_status
status-complete_iff vault_id value =
    let (to, from) = decode_outcome_iff value committed in
    (λ h. to (is_committed (decode_sync_provider_upload_outcome value) h), λ c. rw (from c))
  where
    is_committed :
        (r : Result SyncUploadOutcome)
        → status_of vault_id (unknown_on_error r) ≡ ok complete
        → r ≡ ok committed
    is_committed (ok committed) h = refl
    is_committed (ok outcome_unknown) h = cc
    is_committed (ok (definitely_not_committed remote_snapshot_changed)) h = cc
    is_committed (ok (definitely_not_committed provider_rejected)) h = cc
    is_committed (err thrown) h = cc
