-- ===== src/Base/Actions.antt =====
-- State passing with failure. `none` is a fault: a failed `assert`, or a null dereference.
use mathlib.Core.Path.{◌≡◌, refl}
use mathlib.Core.Bool.{true}
use mathlib.Core.Option.{Option, none, some}
use native.Mathlib.Omega.{arith}
use simple_cgate.Base.Maps.{is_some}

abbrev pub Action : Type 0 → Type 0 → Type 0
Action S A = S → Option (A × S)

module _ {S : Type 0} where
  abbrev pub pure : {A : Type 0} → A → Action S A
  pure a s = some (a, s)

  abbrev pub done : Action S (Unit {0})
  done s = some (tt, s)

  abbrev pub gets : {A : Type 0} → (S → A) → Action S A
  gets f s = some (f s, s)

  -- What must be there: a fault where it is not.
  abbrev pub deref : {A : Type 0} → (S → Option A) → Action S A
  deref f s = elim (f s) [ none ↦ none | some a ↦ some (a, s) ]

  abbrev pub update : (S → S) → Action S (Unit {0})
  update f s = some (tt, f s)

  -- A total operation that returns a value.
  abbrev pub call : {A : Type 0} → (S → A × S) → Action S A
  call f s = some (f s)

infixl 5 ◌>>=◌ ◌>>◌
abbrev pub ◌>>=◌ : {S A B : Type 0} → Action S A → (A → Action S B) → Action S B
◌>>=◌ m f s = elim (m s) [ none ↦ none | some (a, s') ↦ f a s' ]

abbrev pub ◌>>◌ : {S B : Type 0} → Action S (Unit {0}) → Action S B → Action S B
m >> k = m >>= λ _. k

-- What an action that ended has left behind.
abbrev pub Holds : {S A : Type 0} → (A → S → Type 0) → Option (A × S) → Type 0
Holds P none = ⊥
Holds P (some (a, s)) = P a s

-- The rule for a sequence: the parts end, one after the other.
pub >>=-Holds :
    {S A B : Type 0} (P : A → S → Type 0) (Q : B → S → Type 0) (m : Action S A) (f : A → Action S B)
    (s : S)
    → Holds P (m s)
    → ((a : A) (s' : S) → P a s' → Holds Q (f a s'))
    → Holds Q ((m >>= f) s)
>>=-Holds {S} {A} {B} P Q m f s h k = go (m s) h
  where
    go : (r : Option (A × S)) → Holds P r → Holds Q (elim r [ none ↦ none | some (a, s') ↦ f a s' ])
    go none h = h
    go (some (a, s')) h = k a s' h

-- The rule for a read: what is read is there, and the state is as it was.
pub deref-Holds :
    {S A : Type 0} (P : A → S → Type 0) (f : S → Option A) (s : S)
    → is_some (f s) ≡ true
    → ((a : A) → f s ≡ some a → P a s)
    → Holds P (deref f s)
deref-Holds {S} {A} P f s there k = go (f s) there k
  where
    go :
        (o : Option A)
        → is_some o ≡ true
        → ((a : A) → o ≡ some a → P a s)
        → Holds P (elim o [ none ↦ none | some a ↦ some (a, s) ])
    go none e k = absurd (ground arith)
    go (some a) e k = k a refl

-- What holds where an action ends, once it is known to end.
pub Holds-map :
    {S : Type 0} (P Q : S → Type 0) (o : Option (Unit {0} × S))
    → Holds (λ _ s. P s) o
    → ((s : S) → o ≡ some (tt, s) → P s → Q s)
    → Holds (λ _ s. Q s) o
Holds-map P Q none h f = h
Holds-map P Q (some (tt, s)) h f = f s refl h
