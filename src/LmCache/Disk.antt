-- ===== src/LmCache/Disk.antt =====
-- lmrs/lmcache.py: the paths that a purge builds, and what they lead to on a disk without links.
use Prim.Native.Char.{Char, code}
use vvz_lmrs.Prelude.{
  String, Bool, true, false, not, ◌||◌, ◌&&◌, ◌==◌, Option, none, some, is_some, List, [], ◌∷◌,
  ◌++◌, filter, if◌then◌else◌,
}
use vvz_lmrs.ModelCache.Layout.{is_code}

-- What a disk holds: files and directories, by the names that lead to them from `/`. A directory is
-- there when it is listed, or when something below it is.
pub record Node : Type 0 where
  pub path : List String
  pub is_directory : Bool

unfoldable pub prepend : Char → List String → List String
prepend c [] = String.◌∷◌ c String.[] ∷ []
prepend c (p ∷ ps) = String.◌∷◌ c p ∷ ps

-- `text.split("/")`
unfoldable pub pieces : String → List String
unfolding prepend
pieces String.[] = "" ∷ []
pieces (String.◌∷◌ c s) =
    let rest = pieces s in if is_code 47 (code c) then "" ∷ rest else prepend c rest

-- the parts of a path, as pathlib keeps them: `..` stays, `.` and empty parts do not
unfoldable pub path_parts : String → List String
unfolding pieces
path_parts text = filter (λ p. not (p == "" || p == ".")) (pieces text)

unfoldable pub is_absolute : String → Bool
is_absolute String.[] = false
is_absolute (String.◌∷◌ c s) = is_code 47 (code c)

-- `base / text`
unfoldable pub joined_path : List String → String → List String
unfolding is_absolute path_parts
joined_path base text = if is_absolute text then path_parts text else base ++ path_parts text

-- whether the path is the other or leads to it
unfoldable pub starts : List String → List String → Bool
starts [] path = true
starts (k ∷ ks) [] = false
starts (k ∷ ks) (p ∷ path) = k == p && starts ks path

-- the name with which a path goes on below another
unfoldable pub next_name : List String → List String → Option String
next_name [] [] = none
next_name [] (q ∷ qs) = some q
next_name (p ∷ ps) [] = none
next_name (p ∷ ps) (q ∷ qs) = let rest = next_name ps qs in if p == q then rest else none

unfoldable pub parent : List String → List String
parent [] = []
parent (p ∷ []) = []
parent (p ∷ q ∷ ps) = p ∷ parent (q ∷ ps)

abbrev is_top : List String → Bool
is_top [] = true
is_top (p ∷ ps) = false

unfoldable pub some_at : List String → List Node → Bool
unfolding starts
some_at path [] = false
some_at path (n ∷ nodes) = starts path n.path || some_at path nodes

unfoldable pub some_below : List String → List Node → Bool
unfolding next_name starts
some_below path [] = false
some_below path (n ∷ nodes) =
    is_some (next_name path n.path)
    || (starts path n.path && n.is_directory)
    || some_below path nodes

-- `exists` and `is_dir`, of a path without `..`
unfoldable pub is_there : List Node → List String → Bool
unfolding some_at
is_there nodes path = is_top path || some_at path nodes

unfoldable pub is_dir : List Node → List String → Bool
unfolding some_below
is_dir nodes path = is_top path || some_below path nodes

-- Where the names lead from a directory, if anywhere.
unfoldable pub resolve : List Node → List String → List String → Option (List String)
unfolding is_there is_dir parent
resolve nodes here [] = if is_there nodes here then some here else none
resolve nodes here (p ∷ ps) =
    let up = resolve nodes (parent here) ps in
    let down = resolve nodes (here ++ (p ∷ [])) ps in
    if is_dir nodes here then (if p == ".." then up else down) else none
