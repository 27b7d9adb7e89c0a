-- ===== src/ModelCache/Layout.antt =====
-- lmrs/model_cache.py: the names of directories, and which snapshot a repository points at.
use Prim.Native.Char.{Char, char, code}
use vvz_lmrs.Prelude.{
  ℕ, String, Bool, true, false, ◌&&◌, not, ◌==◌, leb, Option, none, some, List, [], ◌∷◌,
  if◌then◌else◌, filter,
}
use vvz_lmrs.Prelude.Dict.{Dict, lookup}
use vvz_lmrs.Manager.State.{strip, reverse_onto}
use vvz_lmrs.Commands.{has_prefix, drop_chars}
use vvz_lmrs.ModelCache.{Ref, Snapshot, Repository}

abbrev pub is_code : ℕ → ℕ → Bool
is_code n c = leb n c && leb c n

skip_slashes : String → String
skip_slashes String.[] = String.[]
skip_slashes (String.◌∷◌ c s) = if is_code 47 (code c) then skip_slashes s else String.◌∷◌ c s

-- `text.strip("/")`
unfoldable pub strip_slashes : String → String
unfolding skip_slashes reverse_onto
strip_slashes s = reverse_onto (skip_slashes (reverse_onto (skip_slashes s) "")) ""

abbrev pub slash : Char
slash = char 47 tt

abbrev pub dash : Char
dash = char 45 tt

-- `one + other`, which computes on the characters of the first
unfoldable pub joined : String → String → String
joined String.[] t = t
joined (String.◌∷◌ c s) t = String.◌∷◌ c (joined s t)

-- `text.replace("/", "--")`
unfoldable pub slashes_to_dashes : String → String
slashes_to_dashes String.[] = String.[]
slashes_to_dashes (String.◌∷◌ c s) =
    let rest = slashes_to_dashes s in
    if is_code 47 (code c) then String.◌∷◌ dash (String.◌∷◌ dash rest) else String.◌∷◌ c rest

-- `text.replace("--", "/")`; the flag says that a dash is held back
unfoldable pub dashes_on : Bool → String → String
dashes_on true String.[] = "-"
dashes_on false String.[] = String.[]
dashes_on true (String.◌∷◌ c s) =
    let pair = dashes_on false s in
    if is_code 45 (code c) then String.◌∷◌ slash pair else String.◌∷◌ dash (String.◌∷◌ c pair)
dashes_on false (String.◌∷◌ c s) =
    let held = dashes_on true s in
    let plain = dashes_on false s in if is_code 45 (code c) then held else String.◌∷◌ c plain

unfoldable pub repo_directory_name : String → String
unfolding joined strip_slashes slashes_to_dashes
repo_directory_name model_name = joined "models--" (slashes_to_dashes (strip_slashes model_name))

unfoldable pub model_name_from_repo_directory : String → String
unfolding has_prefix drop_chars dashes_on
model_name_from_repo_directory directory_name =
    if not (has_prefix "models--" directory_name)
    then ""
    else dashes_on false (drop_chars 8 directory_name)

-- What reading a child of `refs` gives.
pub data RefRead : Type 0 where
  no_file no_text : RefRead
  content : String → RefRead

unfoldable pub ref_read : Option Ref → RefRead
unfolding strip
ref_read none = RefRead.no_file
ref_read (some Ref.directory) = RefRead.no_file
ref_read (some Ref.unreadable) = RefRead.no_text
ref_read (some (Ref.file text)) = RefRead.content (strip text)

-- `none` where the search goes on
unfoldable pub named_ref : RefRead → Option String
named_ref RefRead.no_file = none
named_ref RefRead.no_text = some ""
named_ref (RefRead.content text) = some text

unfoldable pub first_readable : Dict Ref → Option String
unfolding ref_read
first_readable [] = none
first_readable ((_, r) ∷ rest) = elim (ref_read (some r)) [
  | RefRead.content text ↦ some text
  | _ ↦ first_readable rest
]

-- `some` at the first
unfoldable pub or_next : Option String → Option String → Option String
or_next none next = next
or_next (some found) next = some found

unfoldable pub ref_revision : Option (Dict Ref) → Option String
unfolding or_next named_ref first_readable ref_read
ref_revision none = none
ref_revision (some refs) =
    or_next (named_ref (ref_read (lookup "main" refs)))
      (or_next (named_ref (ref_read (lookup "master" refs))) (first_readable refs))

-- the single snapshot directory, where no ref says more
unfoldable pub only_snapshot : Option (Dict Snapshot) → String
only_snapshot (some ((name, _) ∷ [])) = name
only_snapshot _ = ""

abbrev or_text : Option String → String → String
or_text none default = default
or_text (some found) default = found

-- `_resolve_revision`
unfoldable pub resolve_revision : Repository → String
unfolding ref_revision only_snapshot
resolve_revision repo = or_text (ref_revision repo.refs) (only_snapshot repo.snapshots)

unfoldable pub snapshot_at : String → Option (Dict Snapshot) → Option Snapshot
snapshot_at revision none = none
snapshot_at revision (some snapshots) = lookup revision snapshots

-- `_snapshot_directory`
unfoldable pub snapshot_directory : Repository → String → Option Snapshot
unfolding snapshot_at
snapshot_directory repo revision =
    if revision == "" then none else snapshot_at revision repo.snapshots

-- `text.endswith(suffix)`
unfoldable pub has_suffix : String → String → Bool
unfolding has_prefix reverse_onto
has_suffix suffix s = has_prefix (reverse_onto suffix "") (reverse_onto s "")

unfoldable pub incomplete_blobs : Option (List String) → List String
unfolding has_suffix
incomplete_blobs none = []
incomplete_blobs (some names) = filter (has_suffix ".incomplete") names

-- `_incomplete_downloads`, of names in their order
unfoldable pub incomplete_downloads : Repository → List String
unfolding incomplete_blobs
incomplete_downloads repo = incomplete_blobs repo.blobs
