-- ===== src/ModelCache/Deletion.antt =====
-- lmrs/model_cache.py: `DiskModelCache.delete`.
use vvz_lmrs.Prelude.{
  String, Bool, not, ◌==◌, Option, none, some, is_some, List, [], ◌∷◌, ◌++◌, filter, if◌then◌else◌,
}
use vvz_lmrs.Prelude.Int.{pos}
use vvz_lmrs.Prelude.Dict.{lookup, erase}
use vvz_lmrs.Prelude.Value.{Value}
use vvz_lmrs.Lifecycle.{texts}
use vvz_lmrs.ModelCache.{
  CachedModelRecord, CacheCommandResult, Disk, DiskModelCache, Removal, removed, broken_off, Host,
}
use vvz_lmrs.ModelCache.Paths.{repository_path, state_directory}
use vvz_lmrs.ModelCache.Layout.{repo_directory_name}
use vvz_lmrs.ModelCache.Scan.{record_of}
use vvz_lmrs.ModelCache.Commands.{refused_result, good_result}

-- How a sequence of removals ends, with the paths that are gone.
pub data Swept : Type 0 where
  swept : List String → Disk → Swept
  stopped : String → List String → Disk → Swept

-- `shutil.rmtree` of a directory that is there, after which `without` is the disk
unfoldable pub sweep_answer : String → Disk → List String → Removal → Swept
sweep_answer path without paths removed = swept (paths ++ (path ∷ [])) without
sweep_answer path without paths (broken_off error left) = stopped error paths left

abbrev pub Deleted : Type 0
Deleted = CacheCommandResult × DiskModelCache × Disk

unfoldable pub is_unlike : String → CachedModelRecord → Bool
is_unlike model_name item = not (item.model_name == model_name)

module _ (host : Host) (cache : DiskModelCache) where
  unfoldable pub sweep : Bool → String → Disk → List String → Disk → Swept
  unfolding sweep_answer
  sweep present path without paths disk =
      if present then sweep_answer path without paths (host.rmtree path disk) else swept paths disk

  unfoldable pub sweep_repository : String → Disk → Swept
  unfolding sweep repo_directory_name
  sweep_repository model_name disk =
      let key = repo_directory_name model_name in
      sweep (is_some (lookup key disk.repositories)) (repository_path host cache key)
        (record disk { repositories = erase key disk.repositories }) [] disk

  -- the state directory, once the repository is gone
  unfoldable pub sweep_state : String → Swept → Swept
  unfolding sweep repo_directory_name
  sweep_state model_name (stopped error paths left) = stopped error paths left
  sweep_state model_name (swept paths disk) =
      let key = repo_directory_name model_name in
      sweep (is_some (lookup key disk.states)) (state_directory host cache model_name)
        (record disk { states = erase key disk.states }) paths disk

  unfoldable pub deleted_result : String → CachedModelRecord → Swept → Deleted
  unfolding is_unlike
  deleted_result model_name found (stopped error paths left) = (
    refused_result "delete" model_name found.cache_status "MODEL_CACHE_DELETE_FAILED" (some found)
        (("error", Value.text error) ∷ ("removed_paths", Value.list (texts paths)) ∷ []),
    cache,
    left,
  )
  deleted_result model_name found (swept paths left) = (
    good_result "delete" model_name "not_cached" (some found) (
        ("removed_paths", Value.list (texts paths))
        ∷ ("freed_bytes", Value.int (pos found.size_bytes))
        ∷ []),
    record cache { records = filter (is_unlike model_name) cache.records },
    left,
  )

  unfoldable pub delete_found : String → Option CachedModelRecord → Disk → Deleted
  unfolding deleted_result sweep_state sweep_repository
  delete_found model_name none disk =
      (refused_result "delete" model_name "not_cached" "MODEL_NOT_CACHED" none [], cache, disk)
  delete_found model_name (some found) disk =
      deleted_result model_name found (sweep_state model_name (sweep_repository model_name disk))

  unfoldable pub delete : String → Disk → Deleted
  unfolding delete_found record_of
  delete model_name disk = delete_found model_name (record_of host cache model_name disk) disk
