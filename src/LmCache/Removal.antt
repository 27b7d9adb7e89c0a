-- ===== src/LmCache/Removal.antt =====
-- lmrs/lmcache.py: the purge of the disk tier.
use Prim.Native.String.{◌++◌ as concat}
use vvz_lmrs.Prelude.{
  ℕ, ◌+◌, String, Bool, not, ◌&&◌, ◌==◌, Option, none, some, is_some, List, [], ◌∷◌, ◌++◌, map,
  filter, length, Result, ok, err, Exception, if◌then◌else◌,
}
use vvz_lmrs.ModelCache.Snapshots.{sorted_set}
use vvz_lmrs.LmCache.{LmCacheStoragePolicy}
use vvz_lmrs.LmCache.Disk.{Node, joined_path, starts, next_name, is_dir, resolve}

abbrev pub with_name : Option String → List String → List String
with_name none names = names
with_name (some name) names = name ∷ names

unfoldable pub names_below : List String → List Node → List String
unfolding next_name
names_below path [] = []
names_below path (n ∷ nodes) =
    let rest = names_below path nodes in with_name (next_name path n.path) rest

-- the names of `sorted(root.iterdir())`, for a root that leads to `real`
unfoldable pub children : List String → List Node → List String
unfolding sorted_set names_below
children real nodes = sorted_set (names_below real nodes)

abbrev pub leads : List Node → List String → Bool
leads nodes path = is_some (resolve nodes [] path)

abbrev if_there : List Node → List String → List (List String)
if_there nodes target = if leads nodes target then target ∷ [] else []

unfoldable pub session_targets :
    List String → List String → List String → String → List Node → List (List String)
unfolding joined_path is_dir resolve
session_targets root real [] session nodes = []
session_targets root real (child ∷ names) session nodes =
    let rest = session_targets root real names session nodes in
    let target = joined_path (root ++ (child ∷ [])) session in
    if is_dir nodes (real ++ (child ∷ [])) && leads nodes target then target ∷ rest else rest

-- `_purge_targets`
unfoldable pub purge_targets :
    List String → List String → Option String → Option String → List Node → List (List String)
unfolding children session_targets joined_path resolve
purge_targets root real none none nodes = map (λ n. root ++ (n ∷ [])) (children real nodes)
purge_targets root real (some n) (some s) nodes =
    if_there nodes (joined_path (joined_path root n) s)
purge_targets root real (some n) none nodes = if_there nodes (joined_path root n)
purge_targets root real none (some s) nodes =
    session_targets root real (children real nodes) s nodes

-- `_purge_scope`
unfoldable pub purge_scope : Option String → Option String → String
purge_scope none none = "global"
purge_scope (some n) none = concat "namespace:" n
purge_scope none (some s) = concat "session:" s
purge_scope (some n) (some s) = concat "namespace:" (concat n (concat "/session:" s))

abbrev pub under : List String → Node → Bool
under target n = starts target n.path

abbrev pub outside : List String → Node → Bool
outside target n = not (starts target n.path)

unfoldable pub count_of : List String → List Node → ℕ
unfolding is_dir starts
count_of real nodes =
    if is_dir nodes real
    then length (filter (λ (n : Node). starts real n.path && not n.is_directory) nodes)
    else 1

unfoldable pub missing_target : Exception
missing_target = record {
  type_name = "FileNotFoundError";
  message = "[Errno 2] No such file or directory";
}

-- `fails` says which `rmtree` or `unlink` raises, with what, and what it leaves on the disk.
module _ (fails : List String → List Node → Option (Exception × List Node)) where
  unfoldable pub removed :
      List String → List Node → Option (Exception × List Node) → Result ℕ × List Node
  unfolding count_of starts
  removed real nodes (some (raised, left)) = (err raised, left)
  removed real nodes none = (ok (count_of real nodes), filter (outside real) nodes)

  -- by where the target leads
  unfoldable pub removed_at : List String → List Node → Option (List String) → Result ℕ × List Node
  unfolding removed missing_target
  removed_at target nodes none = (err missing_target, nodes)
  removed_at target nodes (some real) = removed real nodes (fails target nodes)

  -- `_remove_artifact`
  unfoldable pub remove_artifact : List String → List Node → Result ℕ × List Node
  unfolding removed_at resolve
  remove_artifact target nodes = removed_at target nodes (resolve nodes [] target)

  abbrev pub plus : ℕ → Result ℕ → Result ℕ
  plus n (ok m) = ok (n + m)
  plus n (err raised) = err raised

  abbrev pub and_then :
      (List Node → Result ℕ × List Node) → Result ℕ × List Node → Result ℕ × List Node
  and_then rest (ok n, nodes) = (plus n (rest nodes).0, (rest nodes).1)
  and_then rest (err raised, nodes) = (err raised, nodes)

  -- the removals in their order, up to one that raises
  unfoldable pub remove_all : List (List String) → List Node → Result ℕ × List Node
  unfolding remove_artifact
  remove_all [] nodes = (ok 0, nodes)
  remove_all (t ∷ ts) nodes = and_then (λ left. remove_all ts left) (remove_artifact t nodes)

  abbrev pub scoped : String → Result ℕ → Result (String × ℕ)
  scoped scope (ok n) = ok (scope, n)
  scoped scope (err raised) = err raised

  -- what the removals end with, under their scope
  abbrev pub scoped_of : String → Result ℕ × List Node → Result (String × ℕ) × List Node
  scoped_of scope x = (scoped scope x.0, x.1)

  unfoldable pub purge_root :
      List String
      → Option (List String)
      → Option String
      → Option String
      → List Node
      → Result (String × ℕ) × List Node
  unfolding purge_targets remove_all purge_scope is_dir
  purge_root root none namespace session nodes = (ok (purge_scope namespace session, 0), nodes)
  purge_root root (some real) namespace session nodes =
      if is_dir nodes real
      then scoped_of (purge_scope namespace session)
          (remove_all (purge_targets root real namespace session nodes) nodes)
      else (ok (purge_scope namespace session, 0), nodes)

  -- `purge_lmcache`: the scope and the number of removed files, or the exception; and the disk that
  -- is left. A relative storage path starts at the working directory.
  unfoldable pub purge_lmcache :
      List String
      → LmCacheStoragePolicy
      → Option String
      → Option String
      → List Node
      → Result (String × ℕ) × List Node
  unfolding purge_root joined_path resolve
  purge_lmcache working_directory policy namespace session nodes = elim policy.cache_storage_path [
    | none ↦ (ok (purge_scope namespace session, 0), nodes)
    | some path ↦
        if path == ""
        then (ok (purge_scope namespace session, 0), nodes)
        else purge_root (joined_path working_directory path)
            (resolve nodes [] (joined_path working_directory path)) namespace session nodes
  ]
