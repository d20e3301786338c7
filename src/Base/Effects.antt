-- ===== src/Base/Effects.antt =====
-- Asynchronous calls as values. A program is run in an environment that answers each call as it
-- likes, by all that happened before: it stands for storage, providers, and what other contexts do
-- while the program waits. A run gives a result, or what is thrown, and the calls made with their
-- answers, the newest first.
use mathlib.Core.List.{List, [], ◌∷◌, ◌++◌}
use engr_serverless_pm.Base.Errors.{Error, Result, ok, err}

abbrev pub Effect : Type 0 → Type 0 → Type 0
Effect Event A = List Event → Result A × List Event

module _ {Event : Type 0} where
  abbrev pub pure : {A : Type 0} → A → Effect Event A
  pure a h = (ok a, [])

  abbrev pub throw : {A : Type 0} → Error → Effect Event A
  throw e h = (err e, [])

  -- A call of a port, with the environment's answer.
  abbrev pub call : {A : Type 0} → (List Event → Result A) → (Result A → Event) → Effect Event A
  call answer event h = (answer h, event (answer h) ∷ [])

  -- `try`: what is thrown becomes a value.
  abbrev pub attempt : {A : Type 0} → Effect Event A → Effect Event (Result A)
  attempt m h = (ok (m h).0, (m h).1)

  abbrev pub resume :
      {A B : Type 0}
      → List Event
      → Result A × List Event
      → (A → Effect Event B)
      → Result B × List Event
  resume h (ok a, l) f = ((f a (l ++ h)).0, (f a (l ++ h)).1 ++ l)
  resume h (err e, l) f = (err e, l)

  infixl 5 ◌>>=◌ ◌>>◌
  abbrev pub ◌>>=◌ : {A B : Type 0} → Effect Event A → (A → Effect Event B) → Effect Event B
  ◌>>=◌ m f h = resume h (m h) f

  abbrev pub ◌>>◌ : {B : Type 0} → Effect Event (Unit {0}) → Effect Event B → Effect Event B
  m >> k = m >>= λ _. k

  -- Whatever happened before, the result and the new calls are so.
  abbrev pub Ensures : {A : Type 0} → (Result A → List Event → Type 0) → Effect Event A → Type 0
  Ensures Q m = (h : List Event) → Q (m h).0 (m h).1

  pub Ensures->>= :
      {A B : Type 0} (P : Result A → List Event → Type 0) (Q : Result B → List Event → Type 0)
      (m : Effect Event A) (f : A → Effect Event B)
      → Ensures P m
      → ((a : A) (l : List Event) → P (ok a) l → Ensures (λ r k. Q r (k ++ l)) (f a))
      → ((e : Error) (l : List Event) → P (err e) l → Q (err e) l)
      → Ensures Q (m >>= f)
  Ensures->>= P Q m f first next thrown h = of_first (m h) (first h)
    where
      of_first : (r : Result _ × List Event) → P r.0 r.1 → Q (resume h r f).0 (resume h r f).1
      of_first (ok a, l) p = next a l p (l ++ h)
      of_first (err e, l) p = thrown e l p

module _ {Event : Type 0} where
  abbrev pub lift : {A : Type 0} → Result A → Effect Event A
  lift r h = (r, [])

  -- What a part of the program gives or throws, with the calls that it made.
  abbrev pub observe : {A : Type 0} → Effect Event A → Effect Event (Result A × List Event)
  observe m h = (ok (m h), (m h).1)
