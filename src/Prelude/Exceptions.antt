-- ===== src/Prelude/Exceptions.antt =====
-- Exceptions as values, and methods that change state and may raise.
use Prim.Native.String.{String}
use mathlib.Core.Path.{◌≡◌, refl}
use mathlib.Core.Bool.{Bool, true, false}

-- A raised exception: the name of its class and `str(error)`.
pub record Exception : Type 0 where
  pub type_name : String
  pub message : String

-- What a call ends with: the value that it returns, or the exception that it raises.
pub data Result {ℓ} (R : Type ℓ) : Type ℓ where
  ok : R → Result R
  err : Exception → Result R

abbrev pub value_error : String → Exception
value_error m = record { type_name = "ValueError"; message = m }

abbrev pub type_error : String → Exception
type_error m = record { type_name = "TypeError"; message = m }

module _ {ℓ κ} {R : Type ℓ} {T : Type κ} where
  infixl 5 ◌>>=◌
  -- the rest of a block after a statement, which an exception skips
  abbrev pub ◌>>=◌ : Result R → (R → Result T) → Result T
  err raised >>= rest = err raised
  ok result >>= rest = rest result

  -- A call that returned ran each of its steps.
  pub >>=-eq-ok :
      (first : Result R) (rest : R → Result T) {final : T}
      → (first >>= rest) ≡ ok final
      → (result : R) × (first ≡ ok result) × (rest result ≡ ok final)
  >>=-eq-ok (err raised) rest returned = cc
  >>=-eq-ok (ok result) rest returned = (result, refl, returned)

infixl 5 ◌>>◌
abbrev pub ◌>>◌ {κ} : {T : Type κ} → Result (Unit {0}) → Result T → Result T
check >> rest = check >>= λ _. rest

-- `if bad: raise e`
abbrev pub raise_if : Bool → Exception → Result (Unit {0})
raise_if true e = err e
raise_if false e = ok tt

-- A statement about the value of a call that must return.
abbrev pub Returns {ℓ} : {A : Type ℓ} → Result A → (A → Type 0) → Type 0
Returns (ok a) P = P a
Returns (err e) P = ⊥

-- A call that raises, whatever the exception.
abbrev pub Raises {ℓ} : {A : Type ℓ} → Result A → Type 0
Raises (ok a) = ⊥
Raises (err e) = Unit

pub raise_if-eq-ok : (b : Bool) (e : Exception) {u : Unit {0}} → raise_if b e ≡ ok u → b ≡ false
raise_if-eq-ok true e h = cc
raise_if-eq-ok false e h = refl

pub ok_injective {ℓ} : {T : Type ℓ} {one other : T} → ok one ≡ ok other → one ≡ other
ok_injective same = cc
