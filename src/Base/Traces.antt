-- ===== src/Base/Traces.antt =====
-- Rules for what a program calls, over all environments: which calls it never makes, what holds when
-- it gives a value, and which calls were made in which order.
use mathlib.Core.Path.{◌≡◌, ◌∙◌}
use mathlib.Core.Logic.{◌⊎◌, inl, inr}
use mathlib.Core.Bool.{Bool, true, false}
use mathlib.Core.List.{List, [], ◌∷◌, ◌++◌}
use native.Mathlib.Omega.{arith}
use engr_serverless_pm.Base.Lists.{any, any-append}
use engr_serverless_pm.Base.Errors.{Error, Result, ok, err}
use engr_serverless_pm.Base.Effects.{Effect, call, resume, ◌>>=◌}

-- The events of a list, newest first, that meet the conditions one after the other.
abbrev pub InOrder : {Event : Type 0} → List (Event → Type 0) → List Event → Type 0
InOrder [] l = Unit
InOrder (P ∷ Ps) [] = ⊥
InOrder (P ∷ Ps) (e ∷ l) = (P e × InOrder Ps l) ⊎ InOrder (P ∷ Ps) l

module _ {Event : Type 0} where
  pub InOrder-before :
      (Ps : List (Event → Type 0)) (k l : List Event) → InOrder Ps l → InOrder Ps (k ++ l)
  InOrder-before Ps [] l o = o
  InOrder-before [] (e ∷ k) l o = tt
  InOrder-before (P ∷ Ps) (e ∷ k) l o = inr (InOrder-before (P ∷ Ps) k l o)

  pub InOrder-append :
      (Ps Qs : List (Event → Type 0)) (k l : List Event)
      → InOrder Ps k
      → InOrder Qs l
      → InOrder (Ps ++ Qs) (k ++ l)
  InOrder-append [] Qs k l o q = InOrder-before Qs k l q
  InOrder-append (P ∷ Ps) Qs [] l o q = absurd o
  InOrder-append (P ∷ Ps) Qs (e ∷ k) l (inl (p, o)) q = inl (p, InOrder-append Ps Qs k l o q)
  InOrder-append (P ∷ Ps) Qs (e ∷ k) l (inr o) q = inr (InOrder-append (P ∷ Ps) Qs k l o q)

  pub InOrder-after :
      (Ps : List (Event → Type 0)) (k l : List Event) → InOrder Ps k → InOrder Ps (k ++ l)
  InOrder-after [] k l o = tt
  InOrder-after (P ∷ Ps) [] l o = absurd o
  InOrder-after (P ∷ Ps) (e ∷ k) l (inl (p, o)) = inl (p, InOrder-after Ps k l o)
  InOrder-after (P ∷ Ps) (e ∷ k) l (inr o) = inr (InOrder-after (P ∷ Ps) k l o)

  -- The program makes no such call.
  abbrev pub Never : {A : Type 0} → (Event → Bool) → Effect Event A → Type 0
  Never p m = (h : List Event) → any p (m h).1 ≡ false

  pub Never->>= :
      {A B : Type 0} (p : Event → Bool) (m : Effect Event A) (f : A → Effect Event B)
      → Never p m
      → ((a : A) → Never p (f a))
      → Never p (m >>= f)
  Never->>= p m f first next h = of_first (m h) (first h)
    where
      of_first : (r : Result _ × List Event) → any p r.1 ≡ false → any p (resume h r f).1 ≡ false
      of_first (ok a, l) none_before =
          any-append p (f a (l ++ h)).1 l ∙ ground (arith, next a (l ++ h), none_before)
      of_first (err e, l) none_before = none_before

  abbrev pub Gives : {A : Type 0} → (A → List Event → Type 0) → Result A → List Event → Type 0
  Gives Q (ok a) l = Q a l
  Gives Q (err e) l = Unit

  -- Whenever it gives a value, the value and its calls are so.
  abbrev pub Yields : {A : Type 0} → (A → List Event → Type 0) → Effect Event A → Type 0
  Yields Q m = (h : List Event) → Gives Q (m h).0 (m h).1

  pub Yields->>= :
      {A B : Type 0} (P : A → List Event → Type 0) (Q : B → List Event → Type 0)
      (m : Effect Event A) (f : A → Effect Event B)
      → Yields P m
      → ((a : A) (l : List Event) → P a l → Yields (λ b k. Q b (k ++ l)) (f a))
      → Yields Q (m >>= f)
  Yields->>= P Q m f first next h = of_first (m h) (first h)
    where
      of_first :
          (r : Result _ × List Event) → Gives P r.0 r.1 → Gives Q (resume h r f).0 (resume h r f).1
      of_first (ok a, l) p = of_next (f a (l ++ h)) (next a l p (l ++ h))
        where
          of_next :
              (r : Result _ × List Event)
              → Gives (λ b k. Q b (k ++ l)) r.0 r.1
              → Gives Q r.0 (r.1 ++ l)
          of_next (ok b, k) q = q
          of_next (err e, k) q = tt
      of_first (err e, l) p = tt

  pub Yields-call :
      {A : Type 0} (Q : A → List Event → Type 0) (answer : List Event → Result A)
      (event : Result A → Event)
      → ((a : A) → Q a (event (ok a) ∷ []))
      → Yields Q (call answer event)
  Yields-call Q answer event q h = of_answer (answer h)
    where
      of_answer : (r : Result _) → Gives Q r (event r ∷ [])
      of_answer (ok a) = q a
      of_answer (err e) = tt

  pub Yields-any : {A : Type 0} (m : Effect Event A) → Yields (λ _ _. Unit {0}) m
  Yields-any {A} m h = of_result (m h)
    where
      of_result : (r : Result A × List Event) → Gives (λ _ _. Unit {0}) r.0 r.1
      of_result (ok a, l) = tt
      of_result (err e, l) = tt

  pub Yields-map :
      {A : Type 0} (P Q : A → List Event → Type 0) (m : Effect Event A)
      → ((a : A) (l : List Event) → P a l → Q a l)
      → Yields P m
      → Yields Q m
  Yields-map P Q m weaker y h = of_result (m h) (y h)
    where
      of_result : (r : Result _ × List Event) → Gives P r.0 r.1 → Gives Q r.0 r.1
      of_result (ok a, l) p = weaker a l p
      of_result (err e, l) p = tt

  -- Whenever it gives a value, it has made such a call.
  abbrev pub Calls : {A : Type 0} → (Event → Bool) → Effect Event A → Type 0
  Calls p m = Yields (λ _ l. any p l ≡ true) m

  pub Calls-after :
      {A B : Type 0} (p : Event → Bool) (m : Effect Event A) (f : A → Effect Event B)
      → ((a : A) → Calls p (f a))
      → Calls p (m >>= f)
  Calls-after {A} {B} p m f next =
      Yields->>= (λ _ _. Unit {0}) (λ _ l. any p l ≡ true) m f (Yields-any m)
        λ a l _.
          Yields-map (λ _ k. any p k ≡ true) (λ _ k. any p (k ++ l) ≡ true) (f a)
            (λ b k called. ground (arith, any-append p k l, called)) (next a)

  pub Calls-before :
      {A B : Type 0} (p : Event → Bool) (m : Effect Event A) (f : A → Effect Event B)
      → Calls p m
      → Calls p (m >>= f)
  Calls-before {A} {B} p m f first =
      Yields->>= (λ _ l. any p l ≡ true) (λ _ l. any p l ≡ true) m f first
        λ a l called.
          Yields-map (λ _ _. Unit {0}) (λ _ k. any p (k ++ l) ≡ true) (f a)
            (λ b k _. ground (arith, any-append p k l, called)) (Yields-any (f a))

  abbrev pub Refuses : {A : Type 0} → (List Event → Type 0) → Result A → List Event → Type 0
  Refuses Q (ok a) l = Unit
  Refuses Q (err e) l = Q l

  -- Whenever it throws, its calls are so.
  abbrev pub Throws : {A : Type 0} → (List Event → Type 0) → Effect Event A → Type 0
  Throws Q m = (h : List Event) → Refuses Q (m h).0 (m h).1

  pub Throws->>= :
      {A B : Type 0} (P : List Event → Type 0) (Q : List Event → Type 0) (m : Effect Event A)
      (f : A → Effect Event B)
      → ((h : List Event) → P (m h).1)
      → Throws Q m
      → ((a : A) (l : List Event) → P l → Throws (λ k. Q (k ++ l)) (f a))
      → Throws Q (m >>= f)
  Throws->>= {A} {B} P Q m f calls first next h = of_first (m h) (calls h) (first h)
    where
      of_first :
          (r : Result A × List Event)
          → P r.1
          → Refuses Q r.0 r.1
          → Refuses Q (resume h r f).0 (resume h r f).1
      of_first (ok a, l) p q = of_next (f a (l ++ h)) (next a l p (l ++ h))
        where
          of_next :
              (r : Result B × List Event)
              → Refuses (λ k. Q (k ++ l)) r.0 r.1
              → Refuses Q r.0 (r.1 ++ l)
          of_next (ok b, k) t = tt
          of_next (err e, k) t = t
      of_first (err e, l) p q = q

  pub Gives-ok :
      {A : Type 0} (Q : A → List Event → Type 0) (r : Result A) (l : List Event) (a : A)
      → Gives Q r l
      → r ≡ ok a
      → Q a l
  Gives-ok Q (ok b) l a g e = let same : b ≡ a = cc in rw (← same) g
  Gives-ok Q (err x) l a g e = cc

  pub Refuses-err :
      {A : Type 0} (Q : List Event → Type 0) (r : Result A) (l : List Event) (e : Error)
      → Refuses Q r l
      → r ≡ err e
      → Q l
  Refuses-err Q (ok a) l e q is = cc
  Refuses-err Q (err x) l e q is = q
