-- ===== src/ModelCache/Scan.antt =====
-- lmrs/model_cache.py: `DiskModelCache._scan_record` and `_record`.
use vvz_lmrs.Prelude.{
  String, Bool, true, false, ◌&&◌, not, ◌==◌, Option, none, some, List, [], ◌∷◌, if◌then◌else◌,
}
use vvz_lmrs.Prelude.Int.{pos}
use vvz_lmrs.Prelude.Dict.{Dict, lookup}
use vvz_lmrs.Prelude.Value.{Value, Fields}
use vvz_lmrs.Lifecycle.{texts, fields}
use vvz_lmrs.ModelCache.{
  CachedModelRecord, Snapshot, Repository, StateDirectory, Disk, DiskModelCache, Host,
}
use vvz_lmrs.ModelCache.Paths.{repository_path, snapshot_path, readiness_marker}
use vvz_lmrs.ModelCache.Layout.{
  repo_directory_name, resolve_revision, snapshot_directory, incomplete_downloads,
}
use vvz_lmrs.ModelCache.Snapshots.{
  read_json, snapshot_size_bytes, broken_entries, weight_files, missing_shards,
  declared_context_window, quantization_profile, tokenizer_profile, downloaded_at,
}

abbrev pub is_empty : List String → Bool
is_empty [] = true
is_empty (s ∷ ss) = false

abbrev no_fields : Fields → Bool
no_fields Fields.end = true
no_fields (Fields.field k v d) = false

abbrev listed : List String → Value
listed names = Value.list (texts names)

-- `weights and not broken and not missing_shards and not incomplete`
unfoldable pub is_complete : List String → List String → List String → List String → Bool
is_complete weights broken missing incomplete =
    not (is_empty weights) && is_empty broken && is_empty missing && is_empty incomplete

unfoldable pub scan_status : Bool → List String → String
scan_status complete incomplete =
    if not (is_empty incomplete) then "caching" else if complete then "cached_on_disk" else "failed"

abbrev pub stored_of : Option StateDirectory → Dict Value
stored_of none = []
stored_of (some state) = state.stored

abbrev marked : Option StateDirectory → Bool
marked none = false
marked (some state) = state.has_marker

-- `_stored_metadata`
unfoldable pub stored_metadata : String → Disk → Dict Value
unfolding repo_directory_name
stored_metadata model_name disk = stored_of (lookup (repo_directory_name model_name) disk.states)

unfoldable pub seeded_among : String → List CachedModelRecord → Option CachedModelRecord
seeded_among model_name [] = none
seeded_among model_name (item ∷ items) =
    if item.model_name == model_name then some item else seeded_among model_name items

module _ (host : Host) (cache : DiskModelCache) where
  unfoldable pub marker_on : String → Disk → Option String
  unfolding readiness_marker repo_directory_name
  marker_on model_name disk =
      if marked (lookup (repo_directory_name model_name) disk.states)
      then some (readiness_marker host cache model_name)
      else none

  unfoldable pub without_snapshot : String → Repository → Disk → CachedModelRecord
  unfolding resolve_revision incomplete_downloads marker_on stored_metadata repo_directory_name
  without_snapshot model_name repo disk =
      let incomplete = incomplete_downloads repo in
      record {
        model_name = model_name;
        runtime_backend = cache.runtime_backend;
        model_path = repository_path host cache (repo_directory_name model_name);
        quantization_profile = "unknown";
        declared_context_window = pos 0;
        tokenizer_profile = "unknown";
        checksum_or_revision = resolve_revision repo;
        size_bytes = 0;
        downloaded_at = "";
        compatibility_flags =
            ("snapshot_present", false) ∷ ("download_in_progress", not (is_empty incomplete)) ∷ [];
        cache_status = if is_empty incomplete then "failed" else "caching";
        readiness_marker_path = marker_on model_name disk;
        metadata =
            (
              "repo_directory",
              Value.text (repository_path host cache (repo_directory_name model_name)),
            )
            ∷ ("incomplete_blobs", listed incomplete)
            ∷ ("stored_metadata", Value.dict (fields (stored_metadata model_name disk)))
            ∷ [];
      }

  unfoldable pub with_snapshot : String → Repository → Snapshot → Disk → CachedModelRecord
  unfolding resolve_revision incomplete_downloads marker_on stored_metadata repo_directory_name
      read_json weight_files broken_entries missing_shards is_complete scan_status
      quantization_profile declared_context_window tokenizer_profile snapshot_size_bytes
      downloaded_at
  with_snapshot model_name repo snapshot disk =
      let config = read_json "config.json" snapshot in
      let weights = weight_files snapshot in
      let broken = broken_entries snapshot in
      let missing = missing_shards host.show snapshot in
      let incomplete = incomplete_downloads repo in
      record {
        model_name = model_name;
        runtime_backend = cache.runtime_backend;
        model_path =
            snapshot_path host cache (repo_directory_name model_name) (resolve_revision repo);
        quantization_profile = quantization_profile config;
        declared_context_window = declared_context_window config;
        tokenizer_profile = tokenizer_profile snapshot;
        checksum_or_revision = resolve_revision repo;
        size_bytes = snapshot_size_bytes snapshot;
        downloaded_at = downloaded_at snapshot;
        compatibility_flags =
            ("config_present", not (no_fields config))
            ∷ ("weights_present", not (is_empty weights))
            ∷ ("tokenizer_present", not (tokenizer_profile snapshot == "unknown"))
            ∷ ("download_complete", is_empty incomplete)
            ∷ ("entries_resolvable", is_empty broken)
            ∷ [];
        cache_status = scan_status (is_complete weights broken missing incomplete) incomplete;
        readiness_marker_path = marker_on model_name disk;
        metadata =
            (
              "repo_directory",
              Value.text (repository_path host cache (repo_directory_name model_name)),
            )
            ∷ ("weight_files", listed weights)
            ∷ ("broken_entries", listed broken)
            ∷ ("missing_shards", listed missing)
            ∷ ("incomplete_blobs", listed incomplete)
            ∷ ("stored_metadata", Value.dict (fields (stored_metadata model_name disk)))
            ∷ [];
      }

  unfoldable pub scan_snapshot : String → Repository → Option Snapshot → Disk → CachedModelRecord
  unfolding with_snapshot without_snapshot
  scan_snapshot model_name repo none disk = without_snapshot model_name repo disk
  scan_snapshot model_name repo (some snapshot) disk = with_snapshot model_name repo snapshot disk

  unfoldable pub scan_repository : String → Option Repository → Disk → Option CachedModelRecord
  unfolding scan_snapshot snapshot_directory resolve_revision
  scan_repository model_name none disk = none
  scan_repository model_name (some repo) disk =
      some (scan_snapshot model_name repo (snapshot_directory repo (resolve_revision repo)) disk)

  -- `_scan_record`
  unfoldable pub scan_record : String → Disk → Option CachedModelRecord
  unfolding scan_repository repo_directory_name
  scan_record model_name disk =
      scan_repository model_name (lookup (repo_directory_name model_name) disk.repositories) disk

  -- `_seeded_record`
  unfoldable pub seeded_record : String → Option CachedModelRecord
  unfolding seeded_among
  seeded_record model_name = seeded_among model_name cache.records

  unfoldable pub or_seeded : Option CachedModelRecord → String → Option CachedModelRecord
  unfolding seeded_record
  or_seeded (some scanned) model_name = some scanned
  or_seeded none model_name = seeded_record model_name

  -- `_record`
  unfoldable pub record_of : String → Disk → Option CachedModelRecord
  unfolding scan_record or_seeded
  record_of model_name disk = or_seeded (scan_record model_name disk) model_name
