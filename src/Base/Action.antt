-- ===== src/Base/Action.antt =====
-- Actions on a state that may run for ever, and total correctness of them.
use mathlib.Core.Path.{◌≡◌, refl}
use mathlib.Core.Bool.{Bool, true, false}
use mathlib.Core.Option.{Option, none, some}
use dhruvaos.Base.Tests.{if◌then◌else◌}

-- `none` is a loop that does not end.
abbrev pub Action : Type 0 → Type 0 → Type 0
Action S A = S → Option (A × S)

module _ {S A : Type 0} where
  unfoldable pub pure : A → Action S A
  pure a s = some (a, s)

  unfoldable pub diverge : Action S A
  diverge s = none

  unfoldable pub gets : (S → A) → Action S A
  gets f s = some (f s, s)

module _ {S : Type 0} where
  unfoldable pub modify : (S → S) → Action S (Unit {0})
  modify f s = some (tt, f s)

module _ {S A B : Type 0} where
  infixl 5 ◌>>=◌ ◌>>◌
  unfoldable pub ◌>>=◌ : Action S A → (A → Action S B) → Action S B
  ◌>>=◌ m f s = elim (m s) [ none ↦ none | some (a, s') ↦ f a s' ]

  abbrev pub ◌>>◌ : Action S A → Action S B → Action S B
  m >> n = m >>= λ _. n

-- The run returns, and what it returns meets `P`.
pub record Ensures {S A : Type 0} (P : A → S → Type 0) (run : Option (A × S)) : Type 0 where
  pub result : A
  pub state : S
  pub returned : run ≡ some (result, state)
  pub post : P result state

module _ {S A : Type 0} {P : A → S → Type 0} where
  pub Ensures-pure : (a : A) (s : S) → P a s → Ensures P (pure a s)
  unfolding pure
  Ensures-pure a s h = record { result = a; state = s; returned = refl; post = h }

  pub Ensures-gets : (f : S → A) (s : S) → P (f s) s → Ensures P (gets f s)
  unfolding gets
  Ensures-gets f s h = record { result = f s; state = s; returned = refl; post = h }

  pub Ensures-if :
      (b : Bool) (m n : Action S A) (s : S)
      → (b ≡ true → Ensures P (m s))
      → (b ≡ false → Ensures P (n s))
      → Ensures P ((if b then m else n) s)
  Ensures-if true m n s hm hn = hm refl
  Ensures-if false m n s hm hn = hn refl

  pub Ensures-weaken :
      {Q : A → S → Type 0} {run : Option (A × S)}
      → Ensures P run
      → ((a : A) (s : S) → P a s → Q a s)
      → Ensures Q run
  Ensures-weaken h f = record {
    result = h.result;
    state = h.state;
    returned = h.returned;
    post = f h.result h.state h.post;
  }

module _ {S : Type 0} {P : Unit {0} → S → Type 0} where
  pub Ensures-modify : (f : S → S) (s : S) → P tt (f s) → Ensures P (modify f s)
  unfolding modify
  Ensures-modify f s h = record { result = tt; state = f s; returned = refl; post = h }

module _ {S A B : Type 0} {P : A → S → Type 0} {Q : B → S → Type 0} where
  pub Ensures-bind :
      (m : Action S A) (f : A → Action S B) (s : S)
      → Ensures P (m s)
      → ((a : A) (s' : S) → P a s' → Ensures Q (f a s'))
      → Ensures Q ((m >>= f) s)
  unfolding ◌>>=◌
  Ensures-bind m f s h k = rw (h.returned, ◌>>=◌) (k h.result h.state h.post)

module _ {S A B : Type 0} {Q : B → S → Type 0} where
  pub then_gets :
      (g : S → A) (f : A → Action S B) (s : S)
      → Ensures Q (f (g s) s)
      → Ensures Q ((gets g >>= f) s)
  unfolding ◌>>=◌ gets
  then_gets g f s h = h
