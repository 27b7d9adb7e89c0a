-- ===== src/LmCache/Walk.antt =====
-- lmrs/lmcache.py: where the paths of a purge lead, on a disk whose names are none of them `..`.
use vvz_lmrs.Prelude.{
  String, Bool, true, false, ◌||◌, ◌==◌, ◌≡◌, refl, sym, ap, ◌∙◌, Option, none, some, List, [], ◌∷◌,
  ◌++◌, All, In, here, there, arith, eq_iff, if◌then◌else◌,
}
use vvz_lmrs.LmCache.Disk.{Node, starts, next_name, some_at, some_below, is_there, is_dir, resolve}

-- No part of the path is `..`.
abbrev pub NoUps : List String → Type 0
NoUps ps = All (λ p. (p == "..") ≡ false) ps

pub append_one :
    (ps : List String) (p : String) (qs : List String) → (ps ++ (p ∷ [])) ++ qs ≡ ps ++ (p ∷ qs)
append_one [] p qs = refl
append_one (r ∷ ps) p qs = ap (λ xs. r ∷ xs) (append_one ps p qs)

append_none : (ps : List String) → ps ++ [] ≡ ps
append_none [] = refl
append_none (p ∷ ps) = ap (λ xs. p ∷ xs) (append_none ps)

-- Below a path a path goes on with the name that comes next.
pub next-starts :
    (ps : List String) (p : String) (qs path : List String)
    → starts (ps ++ (p ∷ qs)) path ≡ true
    → next_name ps path ≡ some p
unfolding starts next_name
next-starts [] p qs [] h = cc
next-starts [] p qs (r ∷ path) h = ground (arith, eq_iff p r)
next-starts (x ∷ ps) p qs [] h = cc
next-starts (x ∷ ps) p qs (r ∷ path) h = ground (arith, next-starts ps p qs path)

pub starts-next :
    (ps : List String) (p : String) (path : List String)
    → next_name ps path ≡ some p
    → starts (ps ++ (p ∷ [])) path ≡ true
unfolding starts next_name
starts-next [] p [] h = cc
starts-next [] p (r ∷ path) h = ground (arith, eq_iff p r)
starts-next (x ∷ ps) p [] h = cc
starts-next (x ∷ ps) p (r ∷ path) h = ground (arith, starts-next ps p path)

pub In-some_at :
    (ps : List String) {n : Node} (nodes : List Node)
    → In n nodes
    → starts ps n.path ≡ true
    → some_at ps nodes ≡ true
unfolding some_at
In-some_at ps [] i h = elim i [ ]
In-some_at ps (n ∷ nodes) here h = rw h refl
In-some_at ps (m ∷ nodes) (there i) h = ground (arith, In-some_at ps nodes i h)

In-some_below :
    (ps : List String) (p : String) {n : Node} (nodes : List Node)
    → In n nodes
    → next_name ps n.path ≡ some p
    → some_below ps nodes ≡ true
unfolding some_below
In-some_below ps p [] i h = elim i [ ]
In-some_below ps p (n ∷ nodes) here h = rw h refl
In-some_below ps p (m ∷ nodes) (there i) h = ground (arith, In-some_below ps p nodes i h)

or_true : (b : Bool) → (b || true) ≡ true
or_true true = refl
or_true false = refl

pub In-is_dir :
    (ps : List String) (p : String) {n : Node} (nodes : List Node)
    → In n nodes
    → next_name ps n.path ≡ some p
    → is_dir nodes ps ≡ true
unfolding is_dir
In-is_dir ps p nodes i h = rw (In-some_below ps p nodes i h) (or_true _)

In-is_there :
    (ps : List String) {n : Node} (nodes : List Node)
    → In n nodes
    → starts ps n.path ≡ true
    → is_there nodes ps ≡ true
unfolding is_there
In-is_there ps nodes i h = rw (In-some_at ps nodes i h) (or_true _)

guarded :
    (b : Bool) (o : Option (List String)) (real : List String)
    → (if b then o else none) ≡ some real
    → o ≡ some real
guarded true o real h = h
guarded false o real h = cc

goes_down :
    (b : Bool) (up down : Option (List String)) (real : List String)
    → b ≡ false
    → (if b then up else down) ≡ some real
    → down ≡ some real
goes_down b up down real e h = ground arith

some_injective : {x y : List String} → some x ≡ some y → x ≡ y
some_injective e = cc

-- A path without `..` leads to itself or nowhere.
pub resolve-eq-some :
    (nodes : List Node) (dir ps : List String) (real : List String)
    → NoUps ps
    → resolve nodes dir ps ≡ some real
    → real ≡ dir ++ ps
unfolding resolve
resolve-eq-some nodes dir [] real plain h =
    sym (some_injective (guarded (is_there nodes dir) (some dir) real h)) ∙ sym (append_none dir)
resolve-eq-some nodes dir (p ∷ ps) real plain h =
    resolve-eq-some nodes (dir ++ (p ∷ [])) ps real plain.1
      (goes_down (p == "..") _ _ real plain.0 (guarded (is_dir nodes dir) _ real h))
    ∙ append_one dir p ps

-- It leads to itself when something of the disk stands there or below.
pub resolve_there :
    (dir ps : List String) {n : Node} (nodes : List Node)
    → NoUps ps
    → In n nodes
    → starts (dir ++ ps) n.path ≡ true
    → resolve nodes dir ps ≡ some (dir ++ ps)
unfolding resolve
resolve_there dir [] {n = n} nodes plain i h =
    rw (In-is_there dir nodes i (ap (λ xs. starts xs n.path) (sym (append_none dir)) ∙ h))
      (ap some (sym (append_none dir)))
resolve_there dir (p ∷ ps) {n = n} nodes plain i h =
    rw (In-is_dir dir p nodes i (next-starts dir p ps n.path h), plain.0)
      (resolve_there (dir ++ (p ∷ [])) ps nodes plain.1 i
          (ap (λ xs. starts xs n.path) (append_one dir p ps) ∙ h)
        ∙ ap some (append_one dir p ps))
