-- ===== src/Session/Coordination.antt =====
-- `runCoordinatedSessionMutation`: an operation runs as its body does, between the calls of the lease.
use mathlib.Core.List.{append-nil}
use engr_serverless_pm.Base.{
  sym, coordination_lease_inactive, not, Bool, true, false, List, [], ◌∷◌, ◌++◌, Result, ok, ◌≡◌,
  refl, ◌∙◌, arith, ◌+◌, ap,
}
use engr_serverless_pm.Base.Effects.{resume, ◌>>◌}
use engr_serverless_pm.Session.Calls.{
  Event, exclusive_entered, exclusive_left, Environment, Coordinated, generation_of,
  invalidation_of,
}
use engr_serverless_pm.Session.Records.{throw_if, with_lease, run_coordinated}

-- Calls of the lease alone, which leave the service's fields as they are.
abbrev pub OfLease : List Event → Type 0
OfLease [] = Unit
OfLease (exclusive_entered r ∷ l) = OfLease l
OfLease (exclusive_left r ∷ l) = OfLease l
OfLease (_ ∷ l) = ⊥

pub generation_of-append :
    (k l : List Event) → generation_of (k ++ l) ≡ (generation_of k + generation_of l)
generation_of-append [] l = ground arith
generation_of-append (e ∷ k) l = let rest = generation_of-append k l in ground arith

pub generation_of-lease : (k l : List Event) → OfLease k → generation_of (k ++ l) ≡ generation_of l
generation_of-lease [] l c = refl
generation_of-lease (e ∷ k) l c = let rest = generation_of-lease k l in ground arith

pub invalidation_of-lease :
    (k l : List Event) → OfLease k → invalidation_of (k ++ l) ≡ invalidation_of l
invalidation_of-lease [] l c = refl
invalidation_of-lease (e ∷ k) l c = let rest = invalidation_of-lease k l in ground arith

with_lease-ok :
    {A : Type 0} (env : Environment) (operation : Coordinated A) (h : List Event) (a : A)
    → (with_lease env operation h).0 ≡ ok a
    → ((operation h).0 ≡ ok a) × ((with_lease env operation h).1 ≡ (operation h).1)
with_lease-ok {A} env operation h a e = of_active (env.is_lease_active h) e
  where
    run : Bool → Result A × List Event
    run active =
        resume h (ok active, []) λ b. throw_if (not b) coordination_lease_inactive >> operation

    of_active :
        (active : Bool)
        → (run active).0 ≡ ok a
        → ((operation h).0 ≡ ok a) × ((run active).1 ≡ (operation h).1)
    of_active true e = (e, append-nil _ ∙ append-nil _)
    of_active false e = cc

-- The body gave the value, after `before`, and `after` follows its calls.
abbrev pub RunsAs : {A : Type 0} → Coordinated A → List Event → A → List Event → Type 0
RunsAs operation h a calls =
    (before after : List Event) × OfLease before
    × OfLease after
    × ((operation (before ++ h)).0 ≡ ok a)
    × (calls ≡ after ++ ((operation (before ++ h)).1 ++ before))

pub run_coordinated-RunsAs :
    {A : Type 0} (env : Environment) (lease : Bool) (operation : Coordinated A) (h : List Event)
    (a : A)
    → (run_coordinated env lease operation h).0 ≡ ok a
    → RunsAs operation h a (run_coordinated env lease operation h).1
run_coordinated-RunsAs env true operation h a e =
    let (given, calls) = with_lease-ok env operation h a e in
    ([], [], tt, tt, given, calls ∙ sym (append-nil _))
run_coordinated-RunsAs env false operation h a e = (
  exclusive_entered (env.enter_exclusive h) ∷ [],
  exclusive_left (env.leave_exclusive ((with_lease env operation held).1 ++ held)) ∷ [],
  tt,
  tt,
  ground arith,
  calls
      ∙ ap
          (λ l.
            (exclusive_left (env.leave_exclusive ((with_lease env operation held).1 ++ held)) ∷ [])
            ++ (l ++ exclusive_entered (env.enter_exclusive h) ∷ []))
          inner,
)
  where
    held : List Event
    held = exclusive_entered (env.enter_exclusive h) ∷ h

    inner : (with_lease env operation held).1 ≡ (operation held).1
    inner = (with_lease-ok env operation held a (ground arith)).1

    calls :
        (run_coordinated env false operation h).1
        ≡ (exclusive_left (env.leave_exclusive ((with_lease env operation held).1 ++ held)) ∷ [])
          ++ ((with_lease env operation held).1 ++ exclusive_entered (env.enter_exclusive h) ∷ [])
    calls = ground arith
