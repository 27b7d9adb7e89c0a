-- ===== src/Prelude/Value.antt =====
-- Values of a dynamic type, and `str` and `int` on the scalars.
use Prim.Native.Char.{code}
use Prim.Native.Nat.{ℕ, zero, suc, ◌+◌, ◌-◌, ◌*◌, ◌/◌, ◌%◌}
use Prim.Native.String.{String, ◌++◌}
use mathlib.Core.Bool.{Bool, true, false, ◌&&◌, ◌||◌}
use mathlib.Core.Option.{Option, none, some}
use mathlib.Core.List.{List, [], ◌∷◌, reverse}
use vvz_lmrs.Prelude.Tests.{ltb, leb, if◌then◌else◌}
use vvz_lmrs.Prelude.Int.{ℤ, pos, negsuc, negate}
use vvz_lmrs.Prelude.Exceptions.{Result, ok, err, value_error, type_error}

-- What the metadata mappings of a request carry.
pub data Scalar : Type 0 where
  null : Scalar
  bool : Bool → Scalar
  int : ℤ → Scalar
  text : String → Scalar

abbrev pub is_null : Scalar → Bool
is_null Scalar.null = true
is_null _ = false

abbrev digit_text : ℕ → String
digit_text d =
    if leb d 4
    then (if leb d 2
        then (if leb d 1 then (if leb d 0 then "0" else "1") else "2")
        else (if leb d 3 then "3" else "4"))
    else (if leb d 7
        then (if leb d 6 then (if leb d 5 then "5" else "6") else "7")
        else (if leb d 8 then "8" else "9"))

-- The decimal digits of `n`, which `n + 1` rounds are enough to write.
decimal_on : ℕ → ℕ → String
decimal_on zero n = ""
decimal_on (suc f) n =
    let rest = decimal_on f (n / 10) in
    if ltb n 10 then digit_text n else rest ++ digit_text (n % 10)

unfoldable pub decimal : ℤ → String
unfolding decimal_on
decimal (pos n) = decimal_on (suc n) n
decimal (negsuc n) = "-" ++ decimal_on (suc (suc n)) (suc n)

-- `str(value)`
unfoldable pub to_text : Scalar → String
to_text Scalar.null = "None"
to_text (Scalar.bool true) = "True"
to_text (Scalar.bool false) = "False"
to_text (Scalar.int n) = decimal n
to_text (Scalar.text s) = s

abbrev codes : String → List ℕ
codes String.[] = []
codes (String.◌∷◌ c s) = code c ∷ codes s

unfoldable pub is_space : ℕ → Bool
is_space c =
    (leb 9 c && leb c 13)
    || (leb 28 c && leb c 32)
    || (leb 133 c && leb c 133)
    || (leb 160 c && leb c 160)

skip_spaces : List ℕ → List ℕ
unfolding is_space
skip_spaces [] = []
skip_spaces (c ∷ cs) = if is_space c then skip_spaces cs else c ∷ cs

-- Decimal digits with single underscores between them; `after` says that a digit came last.
read_digits : Bool → ℕ → List ℕ → Option ℕ
read_digits after acc [] = if after then some acc else none
read_digits after acc (c ∷ cs) =
    let digit = read_digits true (acc * 10 + (c - 48)) cs in
    let gap = read_digits false acc cs in
    if leb 48 c && leb c 57 then digit else if leb 95 c && leb c 95 && after then gap else none

abbrev signed : Bool → Option ℕ → Option ℤ
signed minus none = none
signed true (some n) = some (negate (pos n))
signed false (some n) = some (pos n)

read_int : List ℕ → Option ℤ
unfolding read_digits
read_int [] = none
read_int (c ∷ cs) =
    if leb 45 c && leb c 45
    then signed true (read_digits false 0 cs)
    else if leb 43 c && leb c 43
    then signed false (read_digits false 0 cs)
    else signed false (read_digits false 0 (c ∷ cs))

abbrev or_invalid : Option ℤ → Result ℤ
or_invalid none = err (value_error "invalid literal for int() with base 10")
or_invalid (some n) = ok n

-- `int(value)`, for texts of ASCII digits; the message of a refusal leaves the text out
unfoldable pub to_int : Scalar → Result ℤ
unfolding read_int skip_spaces
to_int Scalar.null = err (
    type_error
      "int() argument must be a string, a bytes-like object or a real number, not 'NoneType'")
to_int (Scalar.bool true) = ok (pos 1)
to_int (Scalar.bool false) = ok (pos 0)
to_int (Scalar.int n) = ok n
to_int (Scalar.text s) =
    or_invalid (read_int (skip_spaces (reverse (skip_spaces (reverse (codes s))))))

-- What a JSON document holds, floats left out.
mutual
  pub data Value : Type 0 where
    null : Value
    bool : Bool → Value
    int : ℤ → Value
    text : String → Value
    list : Items → Value
    dict : Fields → Value

  pub data Items : Type 0 where
    nil : Items
    cons : Value → Items → Items

  pub data Fields : Type 0 where
    end : Fields
    field : String → Value → Fields → Fields
