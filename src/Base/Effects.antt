-- ===== src/Base/Effects.antt =====
-- What a C++ call does: it returns, throws, or has undefined behaviour.
use Prim.Native.Nat.{ℕ}
use Prim.Native.String.{String}
use mathlib.Core.List.{List}
use mathlib.Core.Path.{◌≡◌, refl}
use native.Mathlib.Omega.{arith}

-- The exceptions of the program, with what their messages are made of.
pub data Exception : Type 0 where
  runtime_error : String → Exception
  invalid_argument : String → Exception
  out_of_range_error : String → Exception
  duplicate_section : ℕ → List ℕ → Exception
  duplicate_property : ℕ → List ℕ → Exception
  section_missing : List ℕ → Exception
  invalid_register_name : List ℕ → Exception
  illegal_instruction : String → Exception
  illegal_access : String → Exception
  illegal_access_at : ℕ → Exception
  illegal_access_of_size : ℕ → ℕ → Exception
  invalid_size : ℕ → Exception
  out_of_range : ℕ → Exception
  instruction_fetch_failure : ℕ → Exception
  test_end_marker_encountered : ℕ → Exception

-- A call that changes no state.
pub data Result {ℓ} (A : Type ℓ) : Type ℓ where
  ok : A → Result A
  throw : Exception → Result A
  undefined : Result A

-- A call on a state, which an exception leaves as it was at the throw.
pub data Outcome {ℓ κ} (S : Type ℓ) (A : Type κ) : Type (ℓ ⊔ κ) where
  returns : A → S → Outcome S A
  throws : Exception → S → Outcome S A
  undefined : Outcome S A

abbrev pub Action : Type 0 → Type 0 → Type 0
Action S A = S → Outcome S A

abbrev pub lift : {S A : Type 0} → Result A → Action S A
lift (ok a) s = Outcome.returns a s
lift (throw e) s = Outcome.throws e s
lift Result.undefined s = Outcome.undefined

-- The state after a call, or its exception.
abbrev pub and_then : {S A B : Type 0} → Outcome S A → (A → S → Outcome S B) → Outcome S B
and_then (returns a s) k = k a s
and_then (throws e s) k = throws e s
and_then Outcome.undefined k = Outcome.undefined

abbrev pub bind : {A B : Type 0} → Result A → (A → Result B) → Result B
bind (ok a) f = f a
bind (throw e) f = throw e
bind Result.undefined f = Result.undefined

pub bind_cong :
    {A B : Type 0} (r : Result A) (f g : A → Result B) → ((a : A) → f a ≡ g a) → bind r f ≡ bind r g
bind_cong (ok a) f g h = h a
bind_cong (throw e) f g h = refl
bind_cong Result.undefined f g h = refl

pub ok-inj : {A : Type 0} {a b : A} → ok a ≡ ok b → a ≡ b
ok-inj e = cc

-- The call gives a value, of which `P` holds.
abbrev pub Gives : {A : Type 0} → (A → Type 0) → Result A → Type 0
Gives P (ok a) = P a
Gives P (throw e) = ⊥
Gives P Result.undefined = ⊥

pub Gives-bind :
    {A B : Type 0} (P : A → Type 0) (Q : B → Type 0) (r : Result A) (f : A → Result B)
    → Gives P r
    → ((a : A) → P a → Gives Q (f a))
    → Gives Q (bind r f)
Gives-bind P Q (ok a) f h next = next a h
Gives-bind P Q (throw e) f h next = absurd h
Gives-bind P Q Result.undefined f h next = absurd h

pub Gives-mono :
    {A : Type 0} (P Q : A → Type 0) (r : Result A) → Gives P r → ((a : A) → P a → Q a) → Gives Q r
Gives-mono P Q (ok a) h next = next a h
Gives-mono P Q (throw e) h next = absurd h
Gives-mono P Q Result.undefined h next = absurd h

-- If the call gives a value, `P` holds of it.
abbrev pub IfGives : {A : Type 0} → (A → Type 0) → Result A → Type 0
IfGives P (ok a) = P a
IfGives P _ = Unit

pub IfGives-anything : {A : Type 0} (r : Result A) → IfGives (λ a. Unit) r
IfGives-anything (ok a) = tt
IfGives-anything (throw e) = tt
IfGives-anything Result.undefined = tt

pub IfGives-bind :
    {A B : Type 0} (P : A → Type 0) (Q : B → Type 0) (r : Result A) (f : A → Result B)
    → IfGives P r
    → ((a : A) → P a → IfGives Q (f a))
    → IfGives Q (bind r f)
IfGives-bind P Q (ok a) f h next = next a h
IfGives-bind P Q (throw e) f h next = tt
IfGives-bind P Q Result.undefined f h next = tt

pub IfGives-Unit : {A : Type 0} (r : Result A) → IfGives (λ _. Unit) r
IfGives-Unit (ok a) = tt
IfGives-Unit (throw e) = tt
IfGives-Unit Result.undefined = tt

pub IfGives-of_eq :
    {A : Type 0} (P : A → Type 0) (r : Result A) → ((a : A) → r ≡ ok a → P a) → IfGives P r
IfGives-of_eq P (ok a) h = h a refl
IfGives-of_eq P (throw e) h = tt
IfGives-of_eq P Result.undefined h = tt

-- Sequencing of calls on a state, for `do` blocks.
infixl 5 ◌>>=◌ ◌>>◌
abbrev pub ◌>>=◌ : {S A B : Type 0} → Action S A → (A → Action S B) → Action S B
◌>>=◌ m f s = and_then (m s) f

abbrev pub ◌>>◌ : {S B : Type 0} → Action S (Unit {0}) → Action S B → Action S B
m >> k = m >>= λ _. k

abbrev pub pure : {S A : Type 0} → A → Action S A
pure a s = returns a s

abbrev pub get : {S : Type 0} → Action S S
get s = returns s s

abbrev pub modify : {S : Type 0} → (S → S) → Action S (Unit {0})
modify f s = returns tt (f s)

abbrev pub raise : {S A : Type 0} → Exception → Action S A
raise e s = throws e s

-- The call returns, to a state of which `P` holds.
abbrev pub Returns : {S A : Type 0} → (S → Type 0) → Outcome S A → Type 0
Returns P (returns a s) = P s
Returns P (throws e s) = ⊥
Returns P Outcome.undefined = ⊥

-- If the call returns, `P` holds of the state.
abbrev pub IfReturns : {S A : Type 0} → (S → Type 0) → Outcome S A → Type 0
IfReturns P (returns a s) = P s
IfReturns P (throws e s) = Unit
IfReturns P Outcome.undefined = Unit

pub IfReturns-and_then :
    {S A B : Type 0} (P Q : S → Type 0) (o : Outcome S A) (k : A → S → Outcome S B)
    → IfReturns P o
    → ((a : A) (s : S) → P s → IfReturns Q (k a s))
    → IfReturns Q (and_then o k)
IfReturns-and_then P Q (returns a s) k h next = next a s h
IfReturns-and_then P Q (throws e s) k h next = tt
IfReturns-and_then P Q Outcome.undefined k h next = tt

-- A sequence that returns is made of calls that return.
pub returns_of-and_then :
    {S A B : Type 0} (o : Outcome S A) (k : A → S → Outcome S B) (b : B) (t : S)
    → and_then o k ≡ returns b t
    → (a : A) × (s : S) × (o ≡ returns a s) × (k a s ≡ returns b t)
returns_of-and_then (returns a s) k b t e = (a, s, refl, e)
returns_of-and_then (throws x s) k b t e = cc
returns_of-and_then Outcome.undefined k b t e = cc

pub ok_of-lift :
    {S A : Type 0} (r : Result A) (s t : S) (a : A) → lift r s ≡ returns a t → (r ≡ ok a) × (s ≡ t)
ok_of-lift (ok a) s t b e = ground arith
ok_of-lift (throw x) s t b e = cc
ok_of-lift Result.undefined s t b e = cc

-- Calls in sequence that return, each to a state in which the next one does.
pub Returns-and_then :
    {S A B : Type 0} (P Q : S → Type 0) (o : Outcome S A) (k : A → S → Outcome S B)
    → Returns P o
    → ((a : A) (s : S) → P s → Returns Q (k a s))
    → Returns Q (and_then o k)
Returns-and_then P Q (returns a s) k h next = next a s h
Returns-and_then P Q (throws e s) k h next = absurd h
Returns-and_then P Q Outcome.undefined k h next = absurd h

pub Returns-mono :
    {S A : Type 0} (P Q : S → Type 0) (o : Outcome S A)
    → Returns P o
    → ((s : S) → P s → Q s)
    → Returns Q o
Returns-mono P Q (returns a s) h next = next s h
Returns-mono P Q (throws e s) h next = absurd h
Returns-mono P Q Outcome.undefined h next = absurd h

-- `P` holds of the state that a call leaves, by a return or an exception.
abbrev pub Leaves : {S A : Type 0} → (S → Type 0) → Outcome S A → Type 0
Leaves P (returns a s) = P s
Leaves P (throws e s) = P s
Leaves P Outcome.undefined = Unit

pub Leaves-and_then :
    {S A B : Type 0} (P : S → Type 0) (o : Outcome S A) (k : A → S → Outcome S B)
    → Leaves P o
    → ((a : A) (s : S) → P s → Leaves P (k a s))
    → Leaves P (and_then o k)
Leaves-and_then P (returns a s) k h next = next a s h
Leaves-and_then P (throws e s) k h next = h
Leaves-and_then P Outcome.undefined k h next = tt
