-- ===== src/LmCache/Names.antt =====
-- lmrs/lmcache.py: the names of what stands below the storage root.
use vvz_lmrs.Prelude.{
  String, Bool, true, false, ◌==◌, ◌≡◌, refl, sym, subst, ◌∙◌, Option, none, some, List, [], ◌∷◌,
  All, In, here, there, inl, inr, ◌⊎◌, if_case, eq_iff, if◌then◌else◌,
}
use vvz_lmrs.ModelCache.Snapshots.{text_ltb, insert_sorted, sorted_set}
use vvz_lmrs.LmCache.Disk.{Node, next_name}
use vvz_lmrs.LmCache.Walk.{NoUps}
use vvz_lmrs.LmCache.Removal.{with_name, names_below}

pub next-NoUps :
    (root path : List String) (c : String)
    → NoUps path
    → next_name root path ≡ some c
    → (c == "..") ≡ false
unfolding next_name
next-NoUps [] [] c h e = cc
next-NoUps [] (q ∷ qs) c h e = subst (λ x. (x == "..") ≡ false) (some_injective e) h.0
  where
    some_injective : {x y : String} → some x ≡ some y → x ≡ y
    some_injective eq = cc
next-NoUps (p ∷ ps) [] c h e = cc
next-NoUps (p ∷ ps) (q ∷ qs) c h e = next-NoUps ps qs c h.1 (onward (p == q) (next_name ps qs) e)
  where
    onward : (b : Bool) (o : Option String) → (if b then o else none) ≡ some c → o ≡ some c
    onward true o eq = eq
    onward false o eq = cc

with_name-NoUps :
    (o : Option String) (names : List String)
    → ((c : String) → o ≡ some c → (c == "..") ≡ false)
    → NoUps names
    → NoUps (with_name o names)
with_name-NoUps none names h k = k
with_name-NoUps (some c) names h k = (h c refl, k)

pub names_below-NoUps :
    (root : List String) (nodes : List Node)
    → All (λ (n : Node). NoUps n.path) nodes
    → NoUps (names_below root nodes)
unfolding names_below
names_below-NoUps root [] h = tt
names_below-NoUps root (n ∷ nodes) h =
    with_name-NoUps (next_name root n.path) (names_below root nodes)
      (λ c e. next-NoUps root n.path c h.0 e) (names_below-NoUps root nodes h.1)

In-with_name :
    (o : Option String) (c : String) (names : List String) → In c names → In c (with_name o names)
In-with_name none c names i = i
In-with_name (some d) c names i = there i

pub In-names_below :
    (root : List String) (c : String) {n : Node} (nodes : List Node)
    → In n nodes
    → next_name root n.path ≡ some c
    → In c (names_below root nodes)
unfolding names_below
In-names_below root c [] i e = elim i [ ]
In-names_below root c (n ∷ nodes) here e =
    subst (λ o. In c (with_name o (names_below root nodes))) (sym e) here
In-names_below root c (m ∷ nodes) (there i) e =
    In-with_name (next_name root m.path) c (names_below root nodes)
      (In-names_below root c nodes i e)

-- Sorting drops no name and brings in none.
insert_sorted-NoUps :
    (k : String) (ss : List String) → (k == "..") ≡ false → NoUps ss → NoUps (insert_sorted k ss)
unfolding insert_sorted
insert_sorted-NoUps k [] h hs = (h, tt)
insert_sorted-NoUps k (s ∷ ss) h hs =
    if_case NoUps (s == k) (λ _. hs)
      (λ _.
        if_case NoUps (text_ltb k s) (λ _. (h, hs)) (λ _. (hs.0, insert_sorted-NoUps k ss h hs.1)))

pub sorted_set-NoUps : (ss : List String) → NoUps ss → NoUps (sorted_set ss)
unfolding sorted_set
sorted_set-NoUps [] h = tt
sorted_set-NoUps (s ∷ ss) h = insert_sorted-NoUps s (sorted_set ss) h.0 (sorted_set-NoUps ss h.1)

later :
    (c k s : String) (ss : List String) {names : List String}
    → (c ≡ k) ⊎ In c (s ∷ ss)
    → ((c ≡ k) ⊎ In c ss → In c names)
    → In c (s ∷ names)
later c k s ss (inl e) rest = there (rest (inl e))
later c k s ss (inr here) rest = here
later c k s ss (inr (there i)) rest = there (rest (inr i))

In-insert_sorted : (c k : String) (ss : List String) → (c ≡ k) ⊎ In c ss → In c (insert_sorted k ss)
unfolding insert_sorted
In-insert_sorted c k [] (inl e) = subst (λ x. In x (k ∷ [])) (sym e) here
In-insert_sorted c k [] (inr i) = elim i [ ]
In-insert_sorted c k (s ∷ ss) h =
    if_case (In c) (s == k) (λ e. found h ((eq_iff s k).0 e))
      (λ _.
        if_case (In c) (text_ltb k s) (λ _. first h)
          (λ _. later c k s ss h (λ i. In-insert_sorted c k ss i)))
  where
    found : (c ≡ k) ⊎ In c (s ∷ ss) → s ≡ k → In c (s ∷ ss)
    found (inl e) same = subst (λ x. In x (s ∷ ss)) (same ∙ sym e) here
    found (inr i) same = i

    first : (c ≡ k) ⊎ In c (s ∷ ss) → In c (k ∷ s ∷ ss)
    first (inl e) = subst (λ x. In x (k ∷ s ∷ ss)) (sym e) here
    first (inr i) = there i

pub In-sorted_set : (c : String) (ss : List String) → In c ss → In c (sorted_set ss)
unfolding sorted_set
In-sorted_set c [] i = elim i [ ]
In-sorted_set c (s ∷ ss) here = In-insert_sorted c c (sorted_set ss) (inl refl)
In-sorted_set c (s ∷ ss) (there i) =
    In-insert_sorted c s (sorted_set ss) (inr (In-sorted_set c ss i))
