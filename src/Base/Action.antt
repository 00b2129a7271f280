-- ===== src/Base/Action.antt =====
-- Actions on a state that return a value or throw, as the functions of the source that change an
-- object and raise exceptions. What was changed before a throw stays changed.
use mathlib.Core.Bool.{Bool, true, false}
use mathlib.Core.List.{List, [], ◌∷◌, ◌++◌}
use mathlib.Core.Path.{◌≡◌, refl}
use strus_bindings.Base.Result.{Result, ok, err}

abbrev pub Action : (S E A : Type 0) → Type 0
Action S E A = S → Result E A × S

module _ {S E : Type 0} where
  abbrev pub go_on : {A B : Type 0} → (A → Action S E B) → Result E A × S → Result E B × S
  go_on f (ok a, s) = f a s
  go_on f (err e, s) = (err e, s)

  infixl 5 ◌>>=◌
  abbrev pub ◌>>=◌ : {A B : Type 0} → Action S E A → (A → Action S E B) → Action S E B
  ◌>>=◌ m f s = go_on f (m s)

  abbrev pub return : {A : Type 0} → A → Action S E A
  return a s = (ok a, s)

  abbrev pub throw : {A : Type 0} → E → Action S E A
  throw e s = (err e, s)

  -- an action chosen by the state
  abbrev pub with_state : {A : Type 0} → (S → Action S E A) → Action S E A
  with_state f s = f s s

  abbrev pub modify : (S → S) → Action S E Unit
  modify f s = (ok tt, f s)

  abbrev pub recover : {A : Type 0} → (E → Action S E A) → Result E A × S → Result E A × S
  recover f (ok a, s) = (ok a, s)
  recover f (err e, s) = f e s

  -- `try`, with the handlers as a function of what is thrown
  abbrev pub catch : {A : Type 0} → Action S E A → (E → Action S E A) → Action S E A
  catch m f s = recover f (m s)

  abbrev pub when : Bool → Action S E Unit → Action S E Unit
  when true m = m
  when false m = return tt

  abbrev pub for_each : {A : Type 0} → (A → Action S E Unit) → List A → Action S E Unit
  for_each f [] = return tt
  for_each f (x ∷ xs) = ◌>>=◌ (f x) (λ _. for_each f xs)

-- What an action returns has the first property with the state it leaves, and what it throws the
-- second one.
module _ {S E : Type 0} where
  abbrev pub Ends : {A : Type 0} → (A → S → Type 0) → (E → S → Type 0) → Result E A × S → Type 0
  Ends P Q (ok a, s) = P a s
  Ends P Q (err e, s) = Q e s

  abbrev pub Leaves : {A : Type 0} → (S → Type 0) → Result E A × S → Type 0
  Leaves P = Ends (λ _. P) (λ _. P)

  pub Ends-bind :
      {A B : Type 0} (P : A → S → Type 0) (P1 : B → S → Type 0) (Q : E → S → Type 0)
      (r : Result E A × S) (f : A → Action S E B)
      → Ends P Q r
      → ((a : A) (s : S) → P a s → Ends P1 Q (f a s))
      → Ends P1 Q (go_on f r)
  Ends-bind P P1 Q (ok a, s) f h k = k a s h
  Ends-bind P P1 Q (err e, s) f h k = h

  pub Ends-recover :
      {A : Type 0} (P : A → S → Type 0) (Q Q1 : E → S → Type 0) (r : Result E A × S)
      (f : E → Action S E A)
      → Ends P Q r
      → ((e : E) (s : S) → Q e s → Ends P Q1 (f e s))
      → Ends P Q1 (recover f r)
  Ends-recover P Q Q1 (ok a, s) f h k = h
  Ends-recover P Q Q1 (err e, s) f h k = k e s h

  pub Ends-mono :
      {A : Type 0} (P P1 : A → S → Type 0) (Q Q1 : E → S → Type 0) (r : Result E A × S)
      → ((a : A) (s : S) → P a s → P1 a s)
      → ((e : E) (s : S) → Q e s → Q1 e s)
      → Ends P Q r
      → Ends P1 Q1 r
  Ends-mono P P1 Q Q1 (ok a, s) f g h = f a s h
  Ends-mono P P1 Q Q1 (err e, s) f g h = g e s h

  pub Ends-both :
      {A : Type 0} (P P1 : A → S → Type 0) (Q Q1 : E → S → Type 0) (r : Result E A × S)
      → Ends P Q r
      → Ends P1 Q1 r
      → Ends (λ a s. P a s × P1 a s) (λ e s. Q e s × Q1 e s) r
  Ends-both P P1 Q Q1 (ok a, s) h k = (h, k)
  Ends-both P P1 Q Q1 (err e, s) h k = (h, k)

  pub Ends-when :
      (P : Unit {0} → S → Type 0) (Q : E → S → Type 0) (b : Bool) (m : Action S E Unit) (s : S)
      → P tt s
      → Ends P Q (m s)
      → Ends P Q (when b m s)
  Ends-when P Q true m s h k = k
  Ends-when P Q false m s h k = h

  -- The property of the state before a round depends on what is left of the list.
  pub Ends-for_each :
      {A : Type 0} (P : List A → S → Type 0) (Q : E → S → Type 0) (f : A → Action S E Unit)
      (xs : List A) (s : S)
      → ((x : A) (xs : List A) (s : S) → P (x ∷ xs) s → Ends (λ _. P xs) Q (f x s))
      → P xs s
      → Ends (λ _. P []) Q (for_each f xs s)
  Ends-for_each P Q f [] s k h = h
  Ends-for_each P Q f (x ∷ xs) s k h =
      Ends-bind (λ _. P xs) (λ _. P []) Q (f x s) (λ _. for_each f xs) (k x xs s h)
        (λ _ s1. Ends-for_each P Q f xs s1 k)

  pub Leaves-for_each :
      {A : Type 0} (P : S → Type 0) (f : A → Action S E Unit) (xs : List A) (s : S)
      → ((x : A) (s : S) → P s → Leaves P (f x s))
      → P s
      → Leaves P (for_each f xs s)
  Leaves-for_each P f xs s k = Ends-for_each (λ _. P) (λ _. P) f xs s (λ x _. k x)

  for_each-append_from :
      {A : Type 0} (f : A → Action S E Unit) (xs ys : List A) (r : Result E Unit × S)
      → go_on (λ _. for_each f (xs ++ ys)) r
        ≡ go_on (λ _. for_each f ys) (go_on (λ _. for_each f xs) r)
  for_each-append_from f xs ys (err e, s) = refl
  for_each-append_from f [] ys (ok a, s) = refl
  for_each-append_from f (x ∷ xs) ys (ok a, s) = for_each-append_from f xs ys (f x s)

  pub for_each-append :
      {A : Type 0} (f : A → Action S E Unit) (xs ys : List A) (s : S)
      → for_each f (xs ++ ys) s ≡ go_on (λ _. for_each f ys) (for_each f xs s)
  for_each-append f [] ys s = refl
  for_each-append f (x ∷ xs) ys s = for_each-append_from f xs ys (f x s)
