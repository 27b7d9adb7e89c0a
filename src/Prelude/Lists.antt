-- ===== src/Prelude/Lists.antt =====
-- Lists measured by native numbers, and predicates over lists by recursion.
use Prim.Native.Nat.{ℕ, suc, ◌+◌}
use mathlib.Core.Path.{◌≡◌, refl}
use mathlib.Core.Bool.{Bool, true, false}
use mathlib.Core.Logic.{◌↔◌}
use mathlib.Core.List.{List, [], ◌∷◌, ◌++◌}
use native.Mathlib.Omega.{arith}
use vvz_lmrs.Prelude.Tests.{if◌then◌else◌}

module _ {ℓ} {A : Type ℓ} where
  abbrev pub length : List A → ℕ
  length [] = 0
  length (x ∷ xs) = suc (length xs)

  -- `tuple(x for x in xs if test(x))`
  abbrev pub filter : (A → Bool) → List A → List A
  filter test [] = []
  filter test (x ∷ xs) = let rest = filter test xs in if test x then x ∷ rest else rest

  pub length-append : (xs ys : List A) → length (xs ++ ys) ≡ length xs + length ys
  length-append [] ys = omega arith
  length-append (x ∷ xs) ys = omega (arith, length-append xs ys)

  pub filter-append :
      (test : A → Bool) (xs ys : List A) → filter test (xs ++ ys) ≡ filter test xs ++ filter test ys
  filter-append test [] ys = refl
  filter-append test (x ∷ xs) ys = ground (arith, filter-append test xs ys)

  pub filter-filter :
      (test : A → Bool) (xs : List A) → filter test (filter test xs) ≡ filter test xs
  filter-filter test [] = refl
  filter-filter test (x ∷ xs) = ground (arith, filter-filter test xs)

module _ {ℓ κ} {A : Type ℓ} where
  abbrev pub All : (A → Type κ) → List A → Type κ
  All P [] = Unit
  All P (x ∷ xs) = P x × All P xs

-- Where an element stands in a list.
module _ {ℓ} {A : Type ℓ} where
  pub data In (a : A) : List A → Type ℓ where
    here : {xs : List A} → In a (a ∷ xs)
    there : {x : A} {xs : List A} → In a xs → In a (x ∷ xs)

  pub All-In {κ} : (P : A → Type κ) {a : A} {xs : List A} → In a xs → All P xs → P a
  All-In P here h = h.0
  All-In P (there m) h = All-In P m h.1

  filter_step :
      (test : A → Bool) {a : A} (x : A) (xs : List A) (b : Bool)
      → test x ≡ b
      → (In a (filter test xs) → In a xs × (test a ≡ true))
      → In a (if b then x ∷ filter test xs else filter test xs)
      → In a (x ∷ xs) × (test a ≡ true)
  filter_step test x xs true e rest here = (here, e)
  filter_step test x xs true e rest (there i) = let (k, h) = rest i in (there k, h)
  filter_step test x xs false e rest i = let (k, h) = rest i in (there k, h)

  pub In-filter :
      (test : A → Bool) {a : A} (xs : List A) → In a (filter test xs) → In a xs × (test a ≡ true)
  In-filter test [] i = elim i [ ]
  In-filter test (x ∷ xs) i = filter_step test x xs (test x) refl (In-filter test xs) i

  pub filter-eq-nil_iff :
      (test : A → Bool) (xs : List A) → (filter test xs ≡ []) ↔ All (λ x. test x ≡ false) xs
  filter-eq-nil_iff test [] = (λ _. tt, λ _. refl)
  filter-eq-nil_iff test (x ∷ xs) = ground (arith, filter-eq-nil_iff test xs)
