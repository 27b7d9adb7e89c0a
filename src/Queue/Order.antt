-- ===== src/Queue/Order.antt =====
-- The order on the scheduler's keys is strict: no key is below itself, and it is transitive.
use Prim.Native.Nat.{Ordering, compare, ◌+◌}
use Prim.Native.String.{compare as compare_text, then}
use Prim.Native.String
use text.Mathlib.Text.{is_lt}
use text.Mathlib.TextPositions.{compare_refl}
use text.Mathlib.TextEquality.{path_by_compare}
use vvz_lmrs.Prelude.Int.{ℤ, pos_part, neg_part}
use vvz_lmrs.Prelude.{◌≡◌, ap, sym, arith, true, false, String, Bool-cases, inl, inr}
use vvz_lmrs.Queue.{QueueEntry, key_ltb}

text_lt_trans :
    (s t u : String)
    → compare_text s t ≡ Ordering.lt
    → compare_text t u ≡ Ordering.lt
    → compare_text s u ≡ Ordering.lt
text_lt_trans String.[] (String.◌∷◌ d t) (String.◌∷◌ e u) h k = String.compare.nil-cons e u
text_lt_trans (String.◌∷◌ c s) (String.◌∷◌ d t) (String.◌∷◌ e u) h k = ground (
  arith,
  String.compare.cons-cons c d s t,
  String.compare.cons-cons d e t u,
  String.compare.cons-cons c e s u,
  text_lt_trans s t u,
)
text_lt_trans String.[] String.[] u h k = cc
text_lt_trans String.[] (String.◌∷◌ d t) String.[] h k = cc (String.compare.cons-nil d t)
text_lt_trans (String.◌∷◌ c s) String.[] u h k = cc (String.compare.cons-nil c s)
text_lt_trans (String.◌∷◌ c s) (String.◌∷◌ d t) String.[] h k = cc (String.compare.cons-nil d t)

-- How the comparisons of a with b, b with c and a with c hang together.
record IsTrans (ab bc ac : Ordering) : Type 0 where
  lt_lt : ab ≡ Ordering.lt → bc ≡ Ordering.lt → ac ≡ Ordering.lt
  eq_left : ab ≡ Ordering.eq → ac ≡ bc
  eq_right : bc ≡ Ordering.eq → ac ≡ ab

compare_text-IsTrans :
    (s t u : String) → IsTrans (compare_text s t) (compare_text t u) (compare_text s u)
compare_text-IsTrans s t u = record {
  lt_lt = text_lt_trans s t u;
  eq_left = λ h. ap (λ (x : String). compare_text x u) (path_by_compare s t h);
  eq_right = λ h. ap (compare_text s) (sym (path_by_compare t u h));
}

-- `compare` on integers
abbrev order : ℤ → ℤ → Ordering
order a b = compare (pos_part a + neg_part b) (pos_part b + neg_part a)

order-IsTrans : (a b c : ℤ) → IsTrans (order a b) (order b c) (order a c)
order-IsTrans a b c = record {
  lt_lt = λ h k. ground arith;
  eq_left = λ h. ground arith;
  eq_right = λ h. ground arith;
}

then-IsTrans :
    (x y z x' y' z' : Ordering)
    → IsTrans x y z
    → IsTrans x' y' z'
    → IsTrans (then x x') (then y y') (then z z')
then-IsTrans x y z x' y' z' h h' = record {
  lt_lt = λ p q. ground (arith, h.lt_lt, h.eq_left, h.eq_right, h'.lt_lt, h'.eq_left, h'.eq_right);
  eq_left = λ p. ground (arith, h.lt_lt, h.eq_left, h.eq_right, h'.eq_left);
  eq_right = λ p. ground (arith, h.lt_lt, h.eq_left, h.eq_right, h'.eq_right);
}

abbrev key_order : QueueEntry → QueueEntry → Ordering
key_order a b =
    then (order a.required_dynamic_vram_bytes b.required_dynamic_vram_bytes)
      (then (order a.priority b.priority) (compare_text a.admitted_at b.admitted_at))

key_order-IsTrans : (a b c : QueueEntry) → IsTrans (key_order a b) (key_order b c) (key_order a c)
key_order-IsTrans a b c =
    then-IsTrans _ _ _ _ _ _
      (order-IsTrans a.required_dynamic_vram_bytes b.required_dynamic_vram_bytes
        c.required_dynamic_vram_bytes)
      (then-IsTrans _ _ _ _ _ _ (order-IsTrans a.priority b.priority c.priority)
        (compare_text-IsTrans a.admitted_at b.admitted_at c.admitted_at))

key_ltb-eq-is_lt : (a b : QueueEntry) → key_ltb a b ≡ is_lt (key_order a b)
unfolding key_ltb
key_ltb-eq-is_lt a b = ground arith

is_lt_of : (x : Ordering) → is_lt x ≡ true → x ≡ Ordering.lt
is_lt_of x h = ground arith

-- No key is below itself.
pub key_ltb_irrefl : (a : QueueEntry) → key_ltb a a ≡ false
unfolding key_ltb
key_ltb_irrefl a = ground (arith, compare_refl a.admitted_at)

pub key_ltb_trans :
    (a b c : QueueEntry) → key_ltb a b ≡ true → key_ltb b c ≡ true → key_ltb a c ≡ true
key_ltb_trans a b c h k =
    let below = λ (x y : QueueEntry) (p : key_ltb x y ≡ true).
      is_lt_of (key_order x y) (rw key_ltb-eq-is_lt at p) in
    rw (key_ltb-eq-is_lt a c)
      (ap is_lt ((key_order-IsTrans a b c).lt_lt (below a b h) (below b c k)))

-- What is not above the smaller of two keys is not above the larger.
pub key_ltb_mono :
    (best e x : QueueEntry) → key_ltb best x ≡ true → key_ltb best e ≡ false → key_ltb x e ≡ false
key_ltb_mono best e x h k = elim (Bool-cases (key_ltb x e)) [
  | inl above ↦ cc (key_ltb_trans best x e h above)
  | inr below ↦ below
]
