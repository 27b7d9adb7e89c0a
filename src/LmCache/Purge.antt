-- ===== src/LmCache/Purge.antt =====
-- lmrs/lmcache.py: which files the removals of a purge take, and which they leave.
use vvz_lmrs.Prelude.{
  ℕ, String, Bool, true, false, not, ◌≡◌, refl, sym, ap, subst, ◌∙◌, Option, none, some, List, [],
  ◌∷◌, filter, All, In, here, there, In-filter, Result, ok, err, Exception, arith,
}
use vvz_lmrs.LmCache.Disk.{Node, starts, resolve}
use vvz_lmrs.LmCache.Walk.{NoUps, resolve-eq-some}
use vvz_lmrs.LmCache.Removal.{
  outside, removed, removed_at, remove_artifact, plus, and_then, remove_all,
}

-- A removal that raises has taken nothing that stands outside its target.
abbrev pub FailsInside : (List String → List Node → Option (Exception × List Node)) → Type 0
FailsInside fails =
    (target : List String) (nodes left : List Node) (raised : Exception) (real : List String)
    → fails target nodes ≡ some (raised, left)
    → resolve nodes [] target ≡ some real
    → filter (outside real) left ≡ filter (outside real) nodes

-- A target below which everything is bound.
abbrev pub IsTarget : (Node → Bool) → List String → Type 0
IsTarget bound t = NoUps t × ((n : Node) → starts t n.path ≡ true → bound n ≡ true)

-- What is not bound is left as it was.
abbrev pub Spares : (Node → Bool) → List Node → List Node → Type 0
Spares bound nodes left = filter (λ n. not (bound n)) left ≡ filter (λ n. not (bound n)) nodes

filter_absorb :
    (p q : Node → Bool) (nodes : List Node)
    → ((n : Node) → q n ≡ false → p n ≡ false)
    → filter p (filter q nodes) ≡ filter p nodes
filter_absorb p q [] h = refl
filter_absorb p q (n ∷ nodes) h = ground (arith, h n, filter_absorb p q nodes h)

not-not : (a b : Bool) → (a ≡ true → b ≡ true) → not a ≡ false → not b ≡ false
not-not a b h e = ground (arith, h)

module _ (bound : Node → Bool) (fails : List String → List Node → Option (Exception × List Node))
    (inside : FailsInside fails) where
  absorbed :
      (t : List String) (nodes : List Node)
      → IsTarget bound t
      → filter (λ n. not (bound n)) (filter (outside t) nodes) ≡ filter (λ n. not (bound n)) nodes
  absorbed t nodes h =
      filter_absorb (λ n. not (bound n)) (outside t) nodes
        (λ n. not-not (starts t n.path) (bound n) (h.1 n))

  removed-Spares :
      (t : List String) (nodes : List Node) (o : Option (Exception × List Node))
      → IsTarget bound t
      → fails t nodes ≡ o
      → resolve nodes [] t ≡ some t
      → Spares bound nodes (removed fails t nodes o).1
  unfolding removed
  removed-Spares t nodes none h eq led = absorbed t nodes h
  removed-Spares t nodes (some (raised, left)) h eq led =
      sym (absorbed t left h)
      ∙ ap (λ xs. filter (λ n. not (bound n)) xs) (inside t nodes left raised t eq led)
      ∙ absorbed t nodes h

  led_itself :
      (t : List String) (nodes : List Node) (real : List String)
      → NoUps t
      → resolve nodes [] t ≡ some real
      → real ≡ t
  led_itself t nodes real plain led = resolve-eq-some nodes [] t real plain led

  removed_at-Spares :
      (t : List String) (nodes : List Node) (o : Option (List String))
      → IsTarget bound t
      → resolve nodes [] t ≡ o
      → Spares bound nodes (removed_at fails t nodes o).1
  unfolding removed_at
  removed_at-Spares t nodes none h eq = refl
  removed_at-Spares t nodes (some real) h eq =
      let same = led_itself t nodes real h.0 eq in
      subst (λ r. Spares bound nodes (removed fails r nodes (fails t nodes)).1) (sym same)
        (removed-Spares t nodes (fails t nodes) h refl (eq ∙ ap some same))

  remove_artifact-Spares :
      (t : List String) (nodes : List Node)
      → IsTarget bound t
      → Spares bound nodes (remove_artifact fails t nodes).1
  unfolding remove_artifact
  remove_artifact-Spares t nodes h = removed_at-Spares t nodes (resolve nodes [] t) h refl

  and_then-Spares :
      (nodes : List Node) (rest : List Node → Result ℕ × List Node) (x : Result ℕ × List Node)
      → Spares bound nodes x.1
      → ((left : List Node) → Spares bound left (rest left).1)
      → Spares bound nodes (and_then fails rest x).1
  and_then-Spares nodes rest (err raised, left) h g = h
  and_then-Spares nodes rest (ok n, left) h g = g left ∙ h

  -- Whatever raises, the removals leave what is not bound.
  pub remove_all-Spares :
      (ts : List (List String)) (nodes : List Node)
      → All (IsTarget bound) ts
      → Spares bound nodes (remove_all fails ts nodes).1
  unfolding remove_all
  remove_all-Spares [] nodes h = refl
  remove_all-Spares (t ∷ ts) nodes h =
      and_then-Spares nodes (λ left. remove_all fails ts left) (remove_artifact fails t nodes)
        (remove_artifact-Spares t nodes h.0) (λ left. remove_all-Spares ts left h.1)

-- What is left by removals that all go through: nodes that were there, none of them at or below a
-- target.
abbrev pub IsTaken : List (List String) → List Node → Result ℕ × List Node → Type 0
IsTaken ts nodes (err raised, left) = Unit
IsTaken ts nodes (ok n, left) =
    (m : Node) → In m left → In m nodes × ((t : List String) → In t ts → starts t m.path ≡ false)

not-true : (b : Bool) → not b ≡ true → b ≡ false
not-true b h = ground arith

module _ (fails : List String → List Node → Option (Exception × List Node)) where
  only_one : (t u : List String) → In u (t ∷ []) → u ≡ t
  only_one t u here = refl
  only_one t u (there i) = elim i [ ]

  removed-IsTaken :
      (t : List String) (nodes : List Node) (o : Option (Exception × List Node))
      → IsTaken (t ∷ []) nodes (removed fails t nodes o)
  unfolding removed
  removed-IsTaken t nodes (some (raised, left)) = tt
  removed-IsTaken t nodes none = λ m i.
      let (was, out) = In-filter (outside t) nodes i in
      (was, λ u k. subst (λ v. starts v m.path ≡ false) (sym (only_one t u k)) (not-true _ out))

  removed_at-IsTaken :
      (t : List String) (nodes : List Node) (o : Option (List String))
      → NoUps t
      → resolve nodes [] t ≡ o
      → IsTaken (t ∷ []) nodes (removed_at fails t nodes o)
  unfolding removed_at
  removed_at-IsTaken t nodes none plain eq = tt
  removed_at-IsTaken t nodes (some real) plain eq =
      subst (λ r. IsTaken (t ∷ []) nodes (removed fails r nodes (fails t nodes)))
        (sym (resolve-eq-some nodes [] t real plain eq)) (removed-IsTaken t nodes (fails t nodes))

  joined_up :
      (t : List String) (ts : List (List String)) (nodes left : List Node) (n : ℕ)
      (x : Result ℕ × List Node)
      → IsTaken (t ∷ []) nodes (ok n, left)
      → IsTaken ts left x
      → IsTaken (t ∷ ts) nodes (plus fails n x.0, x.1)
  joined_up t ts nodes left n (err raised, last) h g = tt
  joined_up t ts nodes left n (ok k, last) h g = λ m i.
      let (was, outs) = g m i in
      let (there_first, out) = h m was in (there_first, at_once m outs (out t here))
    where
      at_once :
          (m : Node)
          → ((u : List String) → In u ts → starts u m.path ≡ false)
          → starts t m.path ≡ false
          → (u : List String) → In u (t ∷ ts)
          → starts u m.path ≡ false
      at_once m outs out u here = out
      at_once m outs out u (there i) = outs u i

  and_then-IsTaken :
      (t : List String) (ts : List (List String)) (nodes : List Node)
      (rest : List Node → Result ℕ × List Node) (x : Result ℕ × List Node)
      → IsTaken (t ∷ []) nodes x
      → ((left : List Node) → IsTaken ts left (rest left))
      → IsTaken (t ∷ ts) nodes (and_then fails rest x)
  and_then-IsTaken t ts nodes rest (err raised, left) h g = tt
  and_then-IsTaken t ts nodes rest (ok n, left) h g =
      joined_up t ts nodes left n (rest left) h (g left)

  -- Removals that all go through leave nothing at or below a target.
  pub remove_all-IsTaken :
      (ts : List (List String)) (nodes : List Node)
      → All NoUps ts
      → IsTaken ts nodes (remove_all fails ts nodes)
  unfolding remove_all remove_artifact
  remove_all-IsTaken [] nodes plain = λ m i. (i, λ t k. elim k [ ])
  remove_all-IsTaken (t ∷ ts) nodes plain =
      and_then-IsTaken t ts nodes (λ left. remove_all fails ts left) (remove_artifact fails t nodes)
        (removed_at-IsTaken t nodes (resolve nodes [] t) plain.0 refl)
        (λ left. remove_all-IsTaken ts left plain.1)
