-- ===== src/Common/Result.antt =====
-- Go's `(T, error)` results.
use mathlib.Core.Path.{◌≡◌, refl}
use mathlib.Core.Option.{Option, none, some}
use mathlib.Core.Logic.{◌⊎◌, inl, inr}

pub data Result {ℓ κ} (E : Type κ) (A : Type ℓ) : Type (ℓ ⊔ κ) where
  ok : A → Result E A
  err : E → Result E A

infixl 5 ◌>>=◌
-- `if err != nil { return err }` after a call, and the rest of the body.
abbrev pub ◌>>=◌ {ε α β} :
    {Error : Type ε} {X : Type α} {Y : Type β}
    → Result Error X
    → (X → Result Error Y)
    → Result Error Y
err failure >>= rest = err failure
ok value >>= rest = rest value

-- `fmt.Errorf("...: %w", err)`
abbrev pub map_err {α ε φ} :
    {Inner : Type ε} {Outer : Type φ} {X : Type α}
    → (Inner → Outer)
    → Result Inner X
    → Result Outer X
map_err wrap (err failure) = err (wrap failure)
map_err wrap (ok value) = ok value

-- A search that must find something.
abbrev pub or_err {α ε} : {Error : Type ε} {X : Type α} → Option X → Error → Result Error X
or_err (some value) missing = ok value
or_err none missing = err missing

-- A body that returned a value went past its call.
pub >>=-eq-ok {ε α β} :
    {Error : Type ε} {X : Type α} {Y : Type β} (call : Result Error X) (rest : X → Result Error Y)
    {y : Y}
    → (call >>= rest) ≡ ok y
    → (x : X) × (call ≡ ok x) × (rest x ≡ ok y)
>>=-eq-ok (err failure) rest returned = cc
>>=-eq-ok (ok value) rest returned = (value, refl, returned)

pub map_err-eq-ok {ℓ κ μ} :
    {E : Type κ} {E' : Type μ} {A : Type ℓ} (f : E → E') (m : Result E A) {a : A}
    → map_err f m ≡ ok a
    → m ≡ ok a
map_err-eq-ok f (ok a) h = cc
map_err-eq-ok f (err e) h = cc

pub Result-cases {ℓ κ} :
    {E : Type κ} {A : Type ℓ} (r : Result E A) → ((a : A) × (r ≡ ok a)) ⊎ ((e : E) × (r ≡ err e))
Result-cases (ok a) = inl (a, refl)
Result-cases (err e) = inr (e, refl)

pub or_err-eq-ok {ℓ κ} :
    {E : Type κ} {A : Type ℓ} (o : Option A) (e : E) {a : A} → or_err o e ≡ ok a → o ≡ some a
or_err-eq-ok none e h = cc
or_err-eq-ok (some a) e h = cc
