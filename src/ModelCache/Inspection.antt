-- ===== src/ModelCache/Inspection.antt =====
-- lmrs/model_cache.py: `list_models` and `check_integrity`.
use vvz_lmrs.Prelude.{
  String, Bool, true, false, ◌&&◌, not, ◌==◌, Option, none, some, or_else, List, [], ◌∷◌, ◌++◌, map,
  length, filter, if◌then◌else◌,
}
use vvz_lmrs.Prelude.Int.{pos}
use vvz_lmrs.Prelude.Dict.{Dict, lookup}
use vvz_lmrs.Prelude.Value.{Value, Items}
use vvz_lmrs.Lifecycle.{texts, fields}
use vvz_lmrs.Commands.{has_prefix}
use vvz_lmrs.ModelCache.{CachedModelRecord, CacheCommandResult, Disk, DiskModelCache, Host}
use vvz_lmrs.ModelCache.Paths.{hub_root}
use vvz_lmrs.ModelCache.Layout.{model_name_from_repo_directory}
use vvz_lmrs.ModelCache.Snapshots.{sorted_set, elem}
use vvz_lmrs.ModelCache.Scan.{record_of}
use vvz_lmrs.ModelCache.Commands.{refused_result, good_result, is_cached_on_disk}

unfoldable pub decoded_names : List String → List String
unfolding has_prefix model_name_from_repo_directory
decoded_names [] = []
decoded_names (k ∷ ks) =
    let rest = decoded_names ks in
    if has_prefix "models--" k then model_name_from_repo_directory k ∷ rest else rest

-- `_cached_model_names`
unfoldable pub cached_model_names : Disk → List String
unfolding sorted_set decoded_names
cached_model_names disk =
    filter (λ name. not (name == ""))
      (sorted_set (decoded_names (map (λ (k, _). k) disk.repositories)))

unfoldable pub seeded_names : List String → List CachedModelRecord → List String
unfolding elem
seeded_names names [] = []
seeded_names names (item ∷ items) =
    let rest = seeded_names names items in
    if elem item.model_name names then rest else item.model_name ∷ rest

unfoldable pub entry_of : CachedModelRecord → Value
entry_of r = Value.dict (
    fields (
      ("model_name", Value.text r.model_name)
      ∷ ("cache_status", Value.text r.cache_status)
      ∷ ("size_bytes", Value.int (pos r.size_bytes))
      ∷ ("revision", Value.text r.checksum_or_revision)
      ∷ ("model_path", Value.text r.model_path)
      ∷ []))

unfoldable pub entries_of : List CachedModelRecord → Items
unfolding entry_of
entries_of [] = Items.nil
entries_of (r ∷ rs) = Items.cons (entry_of r) (entries_of rs)

-- a list that is not empty is a problem
unfoldable pub list_problem : String → Option Value → Dict Value
list_problem key (some (Value.list (Items.cons v vs))) = (key, Value.list (Items.cons v vs)) ∷ []
list_problem key _ = []

unfoldable pub problems_of : CachedModelRecord → Dict Value
unfolding list_problem
problems_of r =
    list_problem "broken_entries" (lookup "broken_entries" r.metadata)
    ++ (list_problem "missing_shards" (lookup "missing_shards" r.metadata)
        ++ (list_problem "incomplete_blobs" (lookup "incomplete_blobs" r.metadata)
            ++ (if or_else (lookup "weights_present" r.compatibility_flags) false
                then []
                else ("weights_present", Value.bool false) ∷ [])))

abbrev pub no_problems : Dict Value → Bool
no_problems [] = true
no_problems (p ∷ ps) = false

module _ (host : Host) (cache : DiskModelCache) where
  unfoldable pub present_records : List String → Disk → List CachedModelRecord
  unfolding record_of
  present_records [] disk = []
  present_records (name ∷ names) disk =
      let rest = present_records names disk in
      elim (record_of host cache name disk) [ none ↦ rest | some found ↦ found ∷ rest ]

  unfoldable pub list_models : Disk → CacheCommandResult
  unfolding cached_model_names seeded_names present_records entries_of
  list_models disk =
      let names = cached_model_names disk in
      let present = present_records (names ++ seeded_names names cache.records) disk in
      good_result "list_models" "" "cached_on_disk" none (
        ("models", Value.list (texts (map (λ (r : CachedModelRecord). r.model_name) present)))
        ∷ ("count", Value.int (pos (length present)))
        ∷ ("cache_root", Value.text cache.cache_root)
        ∷ ("hub_cache_root", Value.text (hub_root host cache))
        ∷ ("entries", Value.list (entries_of present))
        ∷ [])

  unfoldable pub integrity_found : String → Option CachedModelRecord → CacheCommandResult
  unfolding problems_of
  integrity_found model_name none =
      refused_result "check_integrity" model_name "not_cached" "MODEL_NOT_CACHED" none []
  integrity_found model_name (some found) =
      let problems = problems_of found in
      let success = is_cached_on_disk found && no_problems problems in
      record {
        command = "check_integrity";
        model_name = model_name;
        status = if success then found.cache_status else "failed";
        success = success;
        reason_code = if success then none else some "MODEL_CACHE_CORRUPTED";
        record_ = some found;
        metadata =
            ("problems", Value.dict (fields problems))
            ∷ ("model_path", Value.text found.model_path)
            ∷ [];
      }

  unfoldable pub check_integrity : String → Disk → CacheCommandResult
  unfolding integrity_found record_of
  check_integrity model_name disk =
      integrity_found model_name (record_of host cache model_name disk)
