-- ===== src/ModelCache/Commands.antt =====
-- lmrs/model_cache.py: the commands of `DiskModelCache`.
use vvz_lmrs.Prelude.{
  String, Bool, true, false, not, ◌==◌, Option, none, some, or_else, [], ◌∷◌, ◌++◌, if◌then◌else◌,
}
use vvz_lmrs.Prelude.Dict.{Dict, lookup, insert, update}
use vvz_lmrs.Prelude.Value.{Value}
use vvz_lmrs.Lifecycle.{fields}
use vvz_lmrs.ModelCache.{
  CachedModelRecord, CacheCommandResult, StateDirectory, Disk, DiskModelCache, Download,
  unavailable, downloaded, Host,
}
use vvz_lmrs.ModelCache.Paths.{hub_root, metadata_path, readiness_marker}
use vvz_lmrs.ModelCache.Layout.{repo_directory_name}
use vvz_lmrs.ModelCache.Scan.{stored_metadata, scan_record, record_of}

abbrev pub is_cached_on_disk : CachedModelRecord → Bool
is_cached_on_disk r = r.cache_status == "cached_on_disk"

abbrev pub refused_result :
    String → String → String → String → Option CachedModelRecord → Dict Value → CacheCommandResult
refused_result command model_name status reason found metadata = record {
  command = command;
  model_name = model_name;
  status = status;
  success = false;
  reason_code = some reason;
  record_ = found;
  metadata = metadata;
}

abbrev pub good_result :
    String → String → String → Option CachedModelRecord → Dict Value → CacheCommandResult
good_result command model_name status found metadata = record {
  command = command;
  model_name = model_name;
  status = status;
  success = true;
  reason_code = none;
  record_ = found;
  metadata = metadata;
}

abbrev pub no_state : StateDirectory
no_state = record { has_marker = false; stored = [] }

unfoldable pub mark : String → Disk → Disk
unfolding repo_directory_name
mark model_name disk =
    let key = repo_directory_name model_name in
    record disk {
      states =
          insert key (record (or_else (lookup key disk.states) no_state) { has_marker = true })
            disk.states;
    }

unfoldable pub store : String → Dict Value → Disk → Disk
unfolding repo_directory_name
store model_name metadata disk =
    let key = repo_directory_name model_name in
    record disk {
      states =
          insert key (record (or_else (lookup key disk.states) no_state) { stored = metadata })
            disk.states;
    }

abbrev pub is_usable : Option CachedModelRecord → Bool
is_usable none = false
is_usable (some found) = is_cached_on_disk found

module _ (host : Host) (cache : DiskModelCache) where
  unfoldable pub marker_written : String → Option String → Disk → String × Disk
  unfolding mark readiness_marker
  marker_written model_name (some error) disk = ("", disk)
  marker_written model_name none disk =
      (readiness_marker host cache model_name, mark model_name disk)

  -- `_write_readiness_marker`: its path, or nothing, and the disk that it leaves
  unfoldable pub write_readiness_marker : String → Disk → String × Disk
  unfolding marker_written readiness_marker
  write_readiness_marker model_name disk =
      marker_written model_name (host.write_text (readiness_marker host cache model_name) disk) disk

  unfoldable pub marked_result :
      String → CachedModelRecord → Dict Value → Disk → CacheCommandResult × Disk
  unfolding write_readiness_marker
  marked_result model_name found metadata disk =
      let (path, after) = write_readiness_marker found.model_name disk in
      (
        good_result "preload" model_name found.cache_status (some found)
            (metadata ++ (("readiness_marker_path", Value.text path) ∷ [])),
        after,
      )

  abbrev pub landed_facts : String → Dict Value
  landed_facts path =
      ("cache_root", Value.text cache.cache_root) ∷ ("downloaded_path", Value.text path) ∷ []

  abbrev pub already_facts : Dict Value
  already_facts =
      ("cache_root", Value.text cache.cache_root) ∷ ("already_cached", Value.bool true) ∷ []

  unfoldable pub landed :
      String → String → Option CachedModelRecord → Disk → CacheCommandResult × Disk
  unfolding marked_result
  landed model_name path none disk = (
    refused_result "preload" model_name "not_cached" "MODEL_CACHE_PRELOAD_FAILED" none
        (landed_facts path),
    disk,
  )
  landed model_name path (some found) disk =
      if not (is_cached_on_disk found)
      then (
        refused_result "preload" model_name found.cache_status "MODEL_CACHE_PRELOAD_FAILED"
            (some found) (landed_facts path),
        disk,
      )
      else marked_result model_name found (landed_facts path) disk

  unfoldable pub after_download : String → Download → Disk → CacheCommandResult × Disk
  unfolding landed scan_record
  after_download model_name (unavailable error) disk = (
    refused_result "preload" model_name "not_cached" "HF_HUB_UNAVAILABLE" none
        (("cache_root", Value.text cache.cache_root) ∷ ("error", Value.text error) ∷ []),
    disk,
  )
  after_download model_name (Download.failed type_name error left) disk = (
    refused_result "preload" model_name "failed" "MODEL_CACHE_PRELOAD_FAILED" none (
        ("cache_root", Value.text cache.cache_root)
        ∷ ("hub_cache_root", Value.text (hub_root host cache))
        ∷ ("error", Value.text error)
        ∷ ("exception_type", Value.text type_name)
        ∷ []),
    left,
  )
  after_download model_name (downloaded path left) disk =
      landed model_name path (scan_record host cache model_name left) left

  unfoldable pub preload_beside :
      String → Option CachedModelRecord → Disk → CacheCommandResult × Disk
  unfolding marked_result after_download
  preload_beside model_name none disk =
      after_download model_name (host.snapshot_download model_name disk) disk
  preload_beside model_name (some existing) disk =
      if is_cached_on_disk existing
      then marked_result model_name existing already_facts disk
      else after_download model_name (host.snapshot_download model_name disk) disk

  unfoldable pub preload : String → Disk → CacheCommandResult × Disk
  unfolding preload_beside record_of
  preload model_name disk = preload_beside model_name (record_of host cache model_name disk) disk

  unfoldable pub status_found : String → Option CachedModelRecord → CacheCommandResult
  status_found model_name none =
      refused_result "status" model_name "not_cached" "MODEL_NOT_CACHED" none (
        ("cache_root", Value.text cache.cache_root)
        ∷ ("hub_cache_root", Value.text (hub_root host cache))
        ∷ [])
  status_found model_name (some found) = record {
    command = "status";
    model_name = model_name;
    status = found.cache_status;
    success = is_cached_on_disk found;
    reason_code = if is_cached_on_disk found then none else some "MODEL_CACHE_INCOMPLETE";
    record_ = some found;
    metadata = [];
  }

  unfoldable pub status : String → Disk → CacheCommandResult
  unfolding status_found record_of
  status model_name disk = status_found model_name (record_of host cache model_name disk)

  unfoldable pub updated_result :
      String → CachedModelRecord → Dict Value → Option String → Disk → CacheCommandResult × Disk
  unfolding store
  updated_result model_name found merged (some error) disk = (
    refused_result "update_metadata" model_name found.cache_status
        "MODEL_CACHE_METADATA_WRITE_FAILED" (some found)
        (("error", Value.text error)
          ∷ ("metadata_path", Value.text (metadata_path host cache model_name))
          ∷ []),
    disk,
  )
  updated_result model_name found merged none disk = (
    good_result "update_metadata" model_name found.cache_status (some found) (
        ("metadata", Value.dict (fields merged))
        ∷ ("metadata_path", Value.text (metadata_path host cache model_name))
        ∷ []),
    store model_name merged disk,
  )

  unfoldable pub update_found :
      String → Dict Value → Option CachedModelRecord → Disk → CacheCommandResult × Disk
  unfolding updated_result stored_metadata
  update_found model_name metadata none disk =
      (refused_result "update_metadata" model_name "not_cached" "MODEL_NOT_CACHED" none [], disk)
  update_found model_name metadata (some found) disk =
      updated_result model_name found (update (stored_metadata model_name disk) metadata)
        (host.write_text (metadata_path host cache model_name) disk) disk

  unfoldable pub update_metadata : String → Dict Value → Disk → CacheCommandResult × Disk
  unfolding update_found record_of
  update_metadata model_name metadata disk =
      update_found model_name metadata (record_of host cache model_name disk) disk
