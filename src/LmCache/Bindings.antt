-- ===== src/LmCache/Bindings.antt =====
-- lmrs/lmcache.py: a purge takes the files of its namespace and session, and no others.
use vvz_lmrs.Prelude.{
  String, Bool, true, false, ◌&&◌, ◌==◌, ◌≡◌, refl, sym, ap, subst, ◌∙◌, Option, none, some,
  is_some, List, [], ◌∷◌, ◌++◌, map, All, In, here, there, Option-cases, inl, inr, if◌then◌else◌,
}
use vvz_lmrs.LmCache.Disk.{Node, joined_path, starts, next_name, is_dir}
use vvz_lmrs.LmCache.Walk.{NoUps, append_one, next-starts, starts-next, In-is_dir, resolve_there}
use vvz_lmrs.LmCache.Removal.{names_below, children, leads, session_targets, purge_targets}
use vvz_lmrs.LmCache.Purge.{IsTarget}
use vvz_lmrs.LmCache.Names.{names_below-NoUps, In-names_below, sorted_set-NoUps, In-sorted_set}

-- A binding that is one name: pathlib takes it as one part of a path, which is not `..`.
abbrev pub IsName : Option String → Type 0
IsName none = Unit
IsName (some name) =
    ((base : List String) → joined_path base name ≡ base ++ (name ∷ [])) × ((name == "..") ≡ false)

abbrev session_of : List String → String → List String → Option String → Bool
session_of root session path none = false
session_of root session path (some child) = starts (root ++ (child ∷ session ∷ [])) path

-- What stands below the storage root, in the namespace and the session that are given.
abbrev pub is_bound : List String → Option String → Option String → Node → Bool
is_bound root none none n = is_some (next_name root n.path)
is_bound root (some name) none n = starts (root ++ (name ∷ [])) n.path
is_bound root (some name) (some session) n = starts (root ++ (name ∷ session ∷ [])) n.path
is_bound root none (some session) n = session_of root session n.path (next_name root n.path)

-- Everything that is bound stands at or below a target.
abbrev pub Covers : (Node → Bool) → List (List String) → List Node → Type 0
Covers bound ts nodes =
    (m : Node)
    → In m nodes
    → bound m ≡ true
    → (t : List String) × In t ts × (starts t m.path ≡ true)

append_NoUps : (xs ys : List String) → NoUps xs → NoUps ys → NoUps (xs ++ ys)
append_NoUps [] ys h k = k
append_NoUps (x ∷ xs) ys h k = (h.0, append_NoUps xs ys h.1 k)

In-map :
    (f : String → List String) (c : String) (names : List String)
    → In c names
    → In (f c) (map f names)
In-map f c [] i = elim i [ ]
In-map f c (d ∷ names) here = here
In-map f c (d ∷ names) (there i) = there (In-map f c names i)

All-if :
    (P : List String → Type 0) (b : Bool) (t : List String) (ts : List (List String))
    → P t
    → All P ts
    → All P (if b then t ∷ ts else ts)
All-if P true t ts h k = (h, k)
All-if P false t ts h k = k

In-if :
    (b : Bool) (u t : List String) (ts : List (List String))
    → In u ts
    → In u (if b then t ∷ ts else ts)
In-if true u t ts i = there i
In-if false u t ts i = i

is_some_of : {c : String} (o : Option String) → o ≡ some c → is_some o ≡ true
is_some_of o e = rw e refl

clash : true ≡ false → ⊥
clash e = cc

module _ (root : List String) (nodes : List Node) (plain : NoUps root)
    (named : All (λ (n : Node). NoUps n.path) nodes) where
  children-NoUps : NoUps (children root nodes)
  unfolding children
  children-NoUps = sorted_set-NoUps (names_below root nodes) (names_below-NoUps root nodes named)

  In-children :
      (c : String) {n : Node}
      → In n nodes
      → next_name root n.path ≡ some c
      → In c (children root nodes)
  unfolding children
  In-children c i e = In-sorted_set c (names_below root nodes) (In-names_below root c nodes i e)

  -- A target that is checked for is there when something bound stands there.
  leads_there :
      (ps : List String) {n : Node}
      → NoUps ps
      → In n nodes
      → starts ps n.path ≡ true
      → leads nodes ps ≡ true
  leads_there ps h i e = rw (resolve_there [] ps nodes h i e) refl

  -- The targets of a purge of everything.
  child_targets :
      (names : List String)
      → NoUps names
      → All (IsTarget (is_bound root none none)) (map (λ n. root ++ (n ∷ [])) names)
  child_targets [] h = tt
  child_targets (c ∷ names) h = (
    (
      append_NoUps root (c ∷ []) plain (h.0, tt),
      λ n e. is_some_of (next_name root n.path) (next-starts root c [] n.path e),
    ),
    child_targets names h.1,
  )

  module _ (session : String) (one_name : IsName (some session)) where
    session_path :
        (c : String) → joined_path (root ++ (c ∷ [])) session ≡ root ++ (c ∷ session ∷ [])
    session_path c = one_name.0 (root ++ (c ∷ [])) ∙ append_one root c (session ∷ [])

    session_IsTarget :
        (c : String)
        → (c == "..") ≡ false
        → IsTarget (is_bound root none (some session)) (joined_path (root ++ (c ∷ [])) session)
    session_IsTarget c h =
        subst (IsTarget (is_bound root none (some session))) (sym (session_path c)) (
          append_NoUps root (c ∷ session ∷ []) plain (h, (one_name.1, tt)),
          λ n e.
              ap (session_of root session n.path) (next-starts root c (session ∷ []) n.path e) ∙ e,
        )

    session-All :
        (names : List String)
        → NoUps names
        → All
            (IsTarget (is_bound root none (some session)))
            (session_targets root root names session nodes)
    unfolding session_targets
    session-All [] h = tt
    session-All (c ∷ names) h =
        All-if (IsTarget (is_bound root none (some session))) _ _ _ (session_IsTarget c h.0)
          (session-All names h.1)

    session_kept :
        (c : String) {n : Node}
        → In n nodes
        → (c == "..") ≡ false
        → starts (root ++ (c ∷ session ∷ [])) n.path ≡ true
        → (is_dir nodes (root ++ (c ∷ [])) && leads nodes (joined_path (root ++ (c ∷ [])) session))
          ≡ true
    session_kept c {n = n} i h e =
        let led =
          leads_there (root ++ (c ∷ session ∷ []))
            (append_NoUps root (c ∷ session ∷ []) plain (h, (one_name.1, tt))) i e in
        let dir = In-is_dir (root ++ (c ∷ [])) session nodes i (
          next-starts (root ++ (c ∷ [])) session [] n.path
            (ap (λ ps. starts ps n.path) (append_one root c (session ∷ [])) ∙ e)) in
        rw dir (ap (leads nodes) (session_path c) ∙ led)

    -- A target among the first names or the rest.
    abbrev Found : Node → List (List String) → Type 0
    Found n ts = (t : List String) × In t ts × (starts t n.path ≡ true)

    session-Found :
        (c : String) (names : List String) {n : Node}
        → In n nodes
        → NoUps names
        → In c names
        → starts (root ++ (c ∷ session ∷ [])) n.path ≡ true
        → Found n (session_targets root root names session nodes)
    unfolding session_targets
    session-Found c [] i h k e = elim k [ ]
    session-Found c (d ∷ names) {n = n} i h here e = rw (session_kept c i h.0 e) (
      joined_path (root ++ (c ∷ [])) session,
      here,
      ap (λ ps. starts ps n.path) (session_path c) ∙ e,
    )
    session-Found c (d ∷ names) {n = n} i h (there k) e =
        let (t, at, e') = session-Found c names i h.1 k e in (t, In-if _ t _ _ at, e')

    session_bound :
        (path : List String) (o : Option String)
        → next_name root path ≡ o
        → session_of root session path o ≡ true
        → (c : String) × (next_name root path ≡ some c)
          × (starts (root ++ (c ∷ session ∷ [])) path ≡ true)
    session_bound path none eq h = cc
    session_bound path (some c) eq h = (c, eq, h)

    session-Covers :
        Covers
          (is_bound root none (some session))
          (session_targets root root (children root nodes) session nodes)
          nodes
    session-Covers m i h =
        let (c, eq, e) = session_bound m.path (next_name root m.path) refl h in
        session-Found c (children root nodes) i children-NoUps (In-children c i eq) e

  one-IsTarget :
      (bound : Node → Bool) (t : List String)
      → IsTarget bound t
      → All (IsTarget bound) (if leads nodes t then t ∷ [] else [])
  one-IsTarget bound t h = All-if (IsTarget bound) (leads nodes t) t [] h tt

  one-Covers :
      (t : List String)
      → NoUps t
      → Covers (λ n. starts t n.path) (if leads nodes t then t ∷ [] else []) nodes
  one-Covers t h m i e = rw (leads_there t h i e) (t, here, e)

  child-Covers :
      Covers (is_bound root none none) (map (λ n. root ++ (n ∷ [])) (children root nodes)) nodes
  child-Covers m i h = elim (Option-cases (next_name root m.path)) [
    | inl e ↦ absurd (clash (sym h ∙ ap is_some e))
    | inr (c, e) ↦ (
      root ++ (c ∷ []),
      In-map (λ n. root ++ (n ∷ [])) c (children root nodes) (In-children c i e),
      starts-next root c m.path e,
    )
  ]

  -- The targets of a purge are bound, and cover what is bound.
  abbrev pub Fits : Option String → Option String → List (List String) → Type 0
  Fits namespace session ts =
      All (IsTarget (is_bound root namespace session)) ts
      × Covers (is_bound root namespace session) ts nodes

  one_fits :
      (bound : Node → Bool) (t : List String)
      → NoUps t
      → ((n : Node) → starts t n.path ≡ bound n)
      → All (IsTarget bound) (if leads nodes t then t ∷ [] else [])
        × Covers bound (if leads nodes t then t ∷ [] else []) nodes
  one_fits bound t h same =
      (one-IsTarget bound t (h, λ n e. sym (same n) ∙ e), λ m i e. one-Covers t h m i (same m ∙ e))

  pub purge_targets_lem :
      (namespace session : Option String)
      → IsName namespace
      → IsName session
      → Fits namespace session (purge_targets root root namespace session nodes)
  unfolding purge_targets
  purge_targets_lem none none h k =
      (child_targets (children root nodes) children-NoUps, child-Covers)
  purge_targets_lem none (some s) h k =
      (session-All s k (children root nodes) children-NoUps, session-Covers s k)
  purge_targets_lem (some n) none h k =
      subst (λ t. Fits (some n) none (if leads nodes t then t ∷ [] else [])) (sym (h.0 root))
        (one_fits (is_bound root (some n) none) (root ++ (n ∷ []))
          (append_NoUps root (n ∷ []) plain (h.1, tt)) (λ m. refl))
  purge_targets_lem (some n) (some s) h k =
      subst (λ t. Fits (some n) (some s) (if leads nodes t then t ∷ [] else []))
        (sym (
          ap (λ base. joined_path base s) (h.0 root)
          ∙ k.0 (root ++ (n ∷ []))
          ∙ append_one root n (s ∷ [])))
        (one_fits (is_bound root (some n) (some s)) (root ++ (n ∷ s ∷ []))
          (append_NoUps root (n ∷ s ∷ []) plain (h.1, (k.1, tt))) (λ m. refl))
