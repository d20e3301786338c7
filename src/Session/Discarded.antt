-- ===== src/Session/Discarded.antt =====
-- `UnlockedVaultSessionService`: what reading the session gives once one has been discarded.
use mathlib.Core.List.{append-nil, append_assoc}
use engr_serverless_pm.Base.{
  ap, ℕ, Bool, String, Option, none, some, List, [], ◌∷◌, ◌++◌, Result, ok, err, ◌≡◌, refl, ◌∙◌,
  arith, eq_iff,
}
use engr_serverless_pm.Base.Effects.{attempt, resume, ◌>>=◌}
use engr_serverless_pm.Versioning.{VersionVector}
use engr_serverless_pm.Session.Types.{UnlockedVaultSession, UnlockedVaultSessionMaterial}
use engr_serverless_pm.Session.Calls.{
  Event, Environment, SessionIdentity, not_invalidated, known, generation_of, invalidation_set,
  material_evicted, identity_read, invalidation_of,
}
use engr_serverless_pm.Session.Records.{
  Reconciled, reconcile_valid, reconcile_active_material, restore, restore_from, or_revoke,
  restore_session, remove_session_records, revoke_authorizations_and_remove_session_records,
}
use engr_serverless_pm.Session.Service.{
  get, is_active, find_active, DiscardResult, discarded, discard_failed,
}
use engr_serverless_pm.Session.Coordination.{invalidation_of-lease, RunsAs, run_coordinated-RunsAs}
use engr_serverless_pm.Session.Rollbacks.{
  discard_unless, refusal, discard_active, discard_of, discard_if, discard_if_session_is_active,
}

remove_session_records-known :
    (env : Environment) (m : UnlockedVaultSessionMaterial) (h : List Event)
    → invalidation_of ((remove_session_records env (some m) h).1 ++ h) ≡ known m.session_id
unfolding remove_session_records
remove_session_records-known env m h = ground arith

revoke-known :
    (env : Environment) (m : UnlockedVaultSessionMaterial) (h : List Event)
    → invalidation_of ((revoke_authorizations_and_remove_session_records env (some m) h).1 ++ h)
      ≡ known m.session_id
unfolding revoke_authorizations_and_remove_session_records remove_session_records
revoke-known env m h = ground arith

valid-Current :
    (env : Environment) (i : SessionIdentity) (h : List Event) (found : Reconciled)
    (m : UnlockedVaultSessionMaterial)
    → (reconcile_valid env (some i) h).0 ≡ ok found
    → found.material ≡ some m
    → m.session_id ≡ i.session_id
unfolding reconcile_valid
valid-Current env i h found m e is = ground (arith, eq_iff i.session_id m.session_id)

reconciled-NotKnown :
    (env : Environment) (i : Option SessionIdentity) (h : List Event) (id : String)
    (found : Reconciled) (m : UnlockedVaultSessionMaterial)
    → invalidation_of h ≡ known id
    → (reconcile_active_material env i h).0 ≡ ok found
    → found.material ≡ some m
    → ¬ (m.session_id ≡ id)
unfolding reconcile_active_material
reconciled-NotKnown env none h id found m state e is same = ground arith
reconciled-NotKnown env (some i) h id found m state e is same =
    let answer = env.evict_material h (some id) in
    let later = invalidation_set not_invalidated ∷ material_evicted (some id) answer ∷ h in
    let current = valid-Current env i later found m in
    ground (arith, current, eq_iff i.session_id id)

restored-SameId :
    (env : Environment) (m : UnlockedVaultSessionMaterial) (h : List Event)
    (s : UnlockedVaultSession)
    → (restore_from env (some m) h).0 ≡ ok (some s)
    → s.session_id ≡ m.session_id
unfolding restore
restored-SameId env m h s e = ground arith

restored-SameMaterial :
    (env : Environment) (o : Option UnlockedVaultSessionMaterial) (h : List Event)
    (s : UnlockedVaultSession)
    → ((attempt (restore_from env o) >>= or_revoke env o) h).0 ≡ ok (some s)
    → (m : UnlockedVaultSessionMaterial) × (o ≡ some m) × (s.session_id ≡ m.session_id)
restored-SameMaterial env none h s is = absurd (ground arith)
restored-SameMaterial env (some m) h s is =
    (m, refl, restored-SameId env m h s (of_run (restore_from env (some m) h) is))
  where
    of_run :
        (r : Result (Option UnlockedVaultSession) × List Event)
        → (resume h (ok r.0, r.1) (or_revoke env (some m))).0 ≡ ok (some s)
        → r.0 ≡ ok (some s)
    of_run (ok a, l) e = e
    of_run (err x, l) e = cc

restore_session-NotKnown :
    (env : Environment) (h : List Event) (id : String) (s : UnlockedVaultSession)
    → invalidation_of h ≡ known id
    → (restore_session env h).0 ≡ ok (some s)
    → ¬ (s.session_id ≡ id)
unfolding restore_session
restore_session-NotKnown env h id s state is same = of_answer (env.get_identity h) refl
  where
    of_answer : (answer : Result (Option SessionIdentity)) → env.get_identity h ≡ answer → ⊥
    of_answer (err e) answer = ground arith
    of_answer (ok i) answer =
        of_found (reconcile_active_material env i (identity_read (ok i) ∷ h)) refl
      where
        of_found :
            (r : Result Reconciled × List Event)
            → reconcile_active_material env i (identity_read (ok i) ∷ h) ≡ r
            → ⊥
        of_found (err e, l) found = ground arith
        of_found (ok r, l) found = of_material (
            restored-SameMaterial env r.material (l ++ (identity_read (ok i) ∷ h)) s (ground arith))
          where
            of_material :
                ((m : UnlockedVaultSessionMaterial) × (r.material ≡ some m)
                  × (s.session_id ≡ m.session_id))
                → ⊥
            of_material (m, is_m, same_m) =
                reconciled-NotKnown env i (identity_read (ok i) ∷ h) id r m state
                  (ap (λ p. p.0) found) is_m cc

get-NotKnown :
    (env : Environment) (lease : Bool) (h : List Event) (id : String) (s : UnlockedVaultSession)
    → invalidation_of h ≡ known id
    → (get env lease h).0 ≡ ok (some s)
    → ¬ (s.session_id ≡ id)
unfolding get
get-NotKnown env lease h id s state is same =
    of_run (run_coordinated-RunsAs env lease (restore_session env) h (some s) is)
  where
    of_run : RunsAs (restore_session env) h (some s) (get env lease h).1 → ⊥
    of_run (before, after, plain, _, given, _) =
        restore_session-NotKnown env (before ++ h) id s
          (invalidation_of-lease before h plain ∙ state) given same

-- The answers that come after a removal.
abbrev pub Removes : DiscardResult → Type 0
Removes discarded = Unit
Removes discard_failed = Unit
Removes _ = ⊥

module _ (env : Environment) (session_id vault_id : String) (generation : ℕ)
    (source : VersionVector) where
  discard_active-known :
      (m : UnlockedVaultSessionMaterial) (h : List Event)
      → m.session_id ≡ session_id
      → invalidation_of ((discard_active env (some m) h).1 ++ h) ≡ known session_id
  unfolding discard_active revoke_authorizations_and_remove_session_records remove_session_records
  discard_active-known m h same = ground arith

  abbrev Fits : Option DiscardResult → Option UnlockedVaultSessionMaterial → Type 0
  Fits (some answer) m = ¬ (Removes answer)
  Fits none none = ⊥
  Fits none (some m) = m.session_id ≡ session_id

  discard_unless-known :
      (o : Option DiscardResult) (m : Option UnlockedVaultSessionMaterial) (h : List Event)
      (r : DiscardResult)
      → Fits o m
      → (discard_unless env o m h).0 ≡ ok r
      → Removes r
      → invalidation_of ((discard_unless env o m h).1 ++ h) ≡ known session_id
  discard_unless-known (some answer) m h r fits is removes = absurd (ground arith)
  discard_unless-known none none h r fits is removes = absurd fits
  discard_unless-known none (some m) h r fits is removes = discard_active-known m h fits

  discard_of-known :
      (i : Option SessionIdentity) (found : Reconciled) (h : List Event) (r : DiscardResult)
      → (discard_of env session_id vault_id generation source i found h).0 ≡ ok r
      → Removes r
      → invalidation_of ((discard_of env session_id vault_id generation source i found h).1 ++ h)
        ≡ known session_id
  discard_of-known none found h r is removes = absurd (ground arith)
  discard_of-known (some i) found h r is removes =
      ap (λ l. invalidation_of (l ++ h)) trimmed
      ∙ discard_unless-known (reason found.material) found.material h r
          (reason-Fits found.material (reason found.material) refl) is removes
    where
      reason : Option UnlockedVaultSessionMaterial → Option DiscardResult
      reason m =
          refusal session_id vault_id generation source i (generation_of h)
            (is_active (invalidation_of h) m session_id vault_id)

      calls : List Event
      calls = (discard_unless env (reason found.material) found.material h).1

      trimmed : ((calls ++ []) ++ []) ≡ calls
      trimmed = append-nil (calls ++ []) ∙ append-nil calls

      reason-Fits :
          (m : Option UnlockedVaultSessionMaterial) (answer : Option DiscardResult)
          → reason m ≡ answer
          → Fits answer m
      reason-Fits m (some answer) because = λ removes. ground arith
      reason-Fits none none because = ground arith
      reason-Fits (some m) none because = ground (arith, eq_iff m.session_id session_id)

  body-known :
      (h : List Event) (r : DiscardResult)
      → ((attempt (find_active env) >>= discard_if env session_id vault_id generation source) h).0
        ≡ ok r
      → Removes r
      → invalidation_of (
          ((attempt (find_active env) >>= discard_if env session_id vault_id generation source) h).1
          ++ h)
        ≡ known session_id
  body-known h r is removes = of_run (find_active env h) is
    where
      run :
          Result (Option SessionIdentity × Reconciled) × List Event
          → Result DiscardResult × List Event
      run found =
          resume h (ok found.0, found.1) (discard_if env session_id vault_id generation source)

      of_run :
          (found : Result (Option SessionIdentity × Reconciled) × List Event)
          → (run found).0 ≡ ok r
          → invalidation_of ((run found).1 ++ h) ≡ known session_id
      of_run (err e, l) is = absurd (ground arith)
      of_run (ok (i, found), l) is =
          ap invalidation_of (
            append_assoc (discard_of env session_id vault_id generation source i found (l ++ h)).1 l
              h)
          ∙ discard_of-known i found (l ++ h) r is removes

  discard-known :
      (lease : Bool) (h : List Event) (r : DiscardResult)
      → (discard_if_session_is_active env lease session_id vault_id generation source h).0 ≡ ok r
      → Removes r
      → invalidation_of
          ((discard_if_session_is_active env lease session_id vault_id generation source h).1 ++ h)
        ≡ known session_id
  unfolding discard_if_session_is_active
  discard-known lease h r is removes = of_run (
      run_coordinated-RunsAs env lease
        (attempt (find_active env) >>= discard_if env session_id vault_id generation source) h r is)
    where
      body : List Event → Result DiscardResult × List Event
      body = attempt (find_active env) >>= discard_if env session_id vault_id generation source

      of_run :
          RunsAs body h r
            (discard_if_session_is_active env lease session_id vault_id generation source h).1
          → invalidation_of (
              (discard_if_session_is_active env lease session_id vault_id generation source h).1
              ++ h)
            ≡ known session_id
      of_run (before, after, plain, ended, given, calls) =
          ap (λ l. invalidation_of (l ++ h)) calls
          ∙ ap invalidation_of (append_assoc after ((body (before ++ h)).1 ++ before) h)
          ∙ invalidation_of-lease after (((body (before ++ h)).1 ++ before) ++ h) ended
          ∙ ap invalidation_of (append_assoc (body (before ++ h)).1 before h)
          ∙ body-known (before ++ h) r given removes

-- Once a session is discarded, or its discarding failed after its removal began, reading the session
-- right afterwards never gives a session of that id, whatever storage still holds.
pub get-IsNotDiscarded :
    (env : Environment) (session_id vault_id : String) (generation : ℕ) (source : VersionVector)
    (lease again : Bool) (h : List Event) (r : DiscardResult) (s : UnlockedVaultSession)
    → (discard_if_session_is_active env lease session_id vault_id generation source h).0 ≡ ok r
    → Removes r
    → (get env again
        ((discard_if_session_is_active env lease session_id vault_id generation source h).1 ++ h)).0
      ≡ ok (some s)
    → ¬ (s.session_id ≡ session_id)
get-IsNotDiscarded env session_id vault_id generation source lease again h r s is removes later =
    get-NotKnown env again
      ((discard_if_session_is_active env lease session_id vault_id generation source h).1 ++ h)
      session_id s (discard-known env session_id vault_id generation source lease h r is removes)
      later
