-- ===== src/ModelCache/Snapshots.antt =====
-- lmrs/model_cache.py: what a snapshot directory says of the model that it holds.
use Prim.Native.Char.{code}
use Prim.Native.Nat.{compare, Ordering}
use vvz_lmrs.Prelude.{
  ℕ, ◌+◌, String, Bool, true, false, ◌&&◌, ◌||◌, not, ◌==◌, Option, none, some, or_else, List, [],
  ◌∷◌, ◌++◌, map, if◌then◌else◌, filter,
}
use vvz_lmrs.Prelude.Int.{ℤ, pos, ltb_ℤ}
use vvz_lmrs.Prelude.Dict.{lookup}
use vvz_lmrs.Prelude.Value.{Value, Fields}
use vvz_lmrs.Vram.Store.{as_int, is_truthy}
use vvz_lmrs.Manager.Probe.{get, dict_or_empty}
use vvz_lmrs.ModelCache.{Target, Entry, Snapshot}

unfoldable pub elem : String → List String → Bool
elem k [] = false
elem k (s ∷ ss) = s == k || elem k ss

-- the order of texts by the codes of their characters
unfoldable pub text_ltb : String → String → Bool
text_ltb s String.[] = false
text_ltb String.[] (String.◌∷◌ d t) = true
text_ltb (String.◌∷◌ c s) (String.◌∷◌ d t) = elim (compare (code c) (code d)) [
  | Ordering.lt ↦ true
  | Ordering.eq ↦ text_ltb s t
  | Ordering.gt ↦ false
]

unfoldable pub insert_sorted : String → List String → List String
unfolding text_ltb
insert_sorted k [] = k ∷ []
insert_sorted k (s ∷ ss) =
    let rest = insert_sorted k ss in
    if s == k then s ∷ ss else if text_ltb k s then k ∷ s ∷ ss else s ∷ rest

-- `sorted({...})`
unfoldable pub sorted_set : List String → List String
unfolding insert_sorted
sorted_set [] = []
sorted_set (s ∷ ss) = insert_sorted s (sorted_set ss)

-- `_read_json` of a document of the snapshot
unfoldable pub read_json : String → Snapshot → Fields
unfolding dict_or_empty
read_json name s = dict_or_empty (lookup name s.documents)

unfoldable pub target_is_file : Option Target → Bool
target_is_file none = false
target_is_file (some t) = t.is_file

-- `(snapshot / name).is_file()`
unfoldable pub has_file : String → List Entry → Bool
unfolding target_is_file
has_file name [] = false
has_file name (e ∷ es) = (e.name == name && target_is_file e.target) || has_file name es

abbrev size_of : Option ℕ → ℕ
size_of none = 0
size_of (some n) = n

-- the sizes of the targets that are not counted yet
sizes : List String → List Entry → ℕ
unfolding elem
sizes counted [] = 0
sizes counted (e ∷ es) = elim e.target [
  | none ↦ sizes counted es
  | some t ↦
      if elem t.path counted then sizes counted es else size_of t.size + sizes (t.path ∷ counted) es
]

-- `_snapshot_size_bytes`
unfoldable pub snapshot_size_bytes : Snapshot → ℕ
unfolding sizes
snapshot_size_bytes s = sizes [] s.entries

unfoldable pub is_broken : Entry → Bool
unfolding target_is_file
is_broken e = not (target_is_file e.target)

unfoldable pub entry_names : List Entry → List String
entry_names es = map (λ (e : Entry). e.name) es

-- `_broken_entries`
unfoldable pub broken_entries : Snapshot → List String
unfolding is_broken entry_names
broken_entries s = entry_names (filter is_broken s.entries)

unfoldable pub is_weight : Entry → Bool
unfolding elem
is_weight e = elem e.suffix (".safetensors" ∷ ".bin" ∷ ".gguf" ∷ ".pt" ∷ ".pth" ∷ [])

-- `_weight_files`
unfoldable pub weight_files : Snapshot → List String
unfolding is_weight entry_names
weight_files s = entry_names (filter is_weight s.entries)

-- `str(value) for value in weight_map.values()`
unfoldable pub shard_names : (Value → String) → Fields → List String
shard_names show Fields.end = []
shard_names show (Fields.field _ v d) = show v ∷ shard_names show d

unfoldable pub map_shards : (Value → String) → Option Value → List String
unfolding shard_names sorted_set
map_shards show (some (Value.dict d)) = sorted_set (shard_names show d)
map_shards show _ = []

-- the shards that an index names
unfoldable pub index_shards : (Value → String) → Snapshot → String → List String
unfolding has_file map_shards get read_json
index_shards show s index =
    if has_file index s.entries then map_shards show (get "weight_map" (read_json index s)) else []

unfoldable pub named_shards : (Value → String) → Snapshot → List String
unfolding index_shards
named_shards show s =
    index_shards show s "model.safetensors.index.json"
    ++ index_shards show s "pytorch_model.bin.index.json"

-- `_missing_shards`
unfoldable pub missing_shards : (Value → String) → Snapshot → List String
unfolding named_shards has_file
missing_shards show s = filter (λ shard. not (has_file shard s.entries)) (named_shards show s)

abbrev positive : Option ℤ → Option ℤ
positive none = none
positive (some n) = if ltb_ℤ (pos 0) n then some n else none

window_of : List String → Fields → ℤ
unfolding get as_int
window_of [] config = pos 0
window_of (k ∷ ks) config = or_else (positive (as_int (get k config))) (window_of ks config)

-- `_declared_context_window`
unfoldable pub declared_context_window : Fields → ℤ
unfolding window_of
declared_context_window config =
    window_of
      ("max_position_embeddings" ∷ "max_sequence_length" ∷ "n_positions" ∷ "model_max_length" ∷ [])
      config

-- `one or other`
unfoldable pub truthy_or : Option Value → Option Value → Option Value
unfolding is_truthy
truthy_or one other = if is_truthy one then one else other

-- a text that is not empty
unfoldable pub text_of : Option Value → Option String
text_of (some (Value.text s)) = if s == "" then none else some s
text_of _ = none

-- `_quantization_profile`
unfoldable pub quantization_profile : Fields → String
unfolding dict_or_empty get truthy_or text_of
quantization_profile config =
    let quantization = dict_or_empty (get "quantization_config" config) in
    or_else (text_of (truthy_or (get "quant_method" quantization) (get "quant_type" quantization)))
      (or_else (text_of (truthy_or (get "torch_dtype" config) (get "dtype" config))) "unknown")

first_file : List String → List Entry → String
unfolding has_file
first_file [] es = "unknown"
first_file (k ∷ ks) es = if has_file k es then k else first_file ks es

-- `_tokenizer_profile`
unfoldable pub tokenizer_profile : Snapshot → String
unfolding first_file
tokenizer_profile s =
    first_file ("tokenizer.json" ∷ "tokenizer.model" ∷ "tokenizer_config.json" ∷ "vocab.json" ∷ [])
      s.entries

-- `_downloaded_at`
unfoldable pub downloaded_at : Snapshot → String
downloaded_at s = or_else s.modified ""
