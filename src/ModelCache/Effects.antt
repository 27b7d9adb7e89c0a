-- ===== src/ModelCache/Effects.antt =====
-- lmrs/model_cache.py: what `preload` and `update_metadata` leave on disk.
use vvz_lmrs.Prelude.{
  String, Bool, true, false, not, ◌≡◌, refl, ap, sym, subst, ◌∙◌, Option, none, some, or_else,
  if_case, ◌⊎◌, inl, inr,
}
use vvz_lmrs.Prelude.Value.{Value}
use vvz_lmrs.Prelude.Dict.{Dict, lookup, update, lookup_inserted}
use vvz_lmrs.ModelCache.{
  CachedModelRecord, CacheCommandResult, Disk, DiskModelCache, Download, unavailable, downloaded,
  Host,
}
use vvz_lmrs.ModelCache.Paths.{metadata_path, readiness_marker}
use vvz_lmrs.ModelCache.Layout.{repo_directory_name}
use vvz_lmrs.ModelCache.Scan.{scan_record, record_of, or_seeded, stored_metadata, stored_of}
use vvz_lmrs.ModelCache.Commands.{
  is_cached_on_disk, is_usable, no_state, mark, store, marker_written, write_readiness_marker,
  marked_result, landed, landed_facts, already_facts, after_download, preload_beside, preload,
  status, status_found, update_metadata, update_found, updated_result,
}
use vvz_lmrs.ModelCache.Reported.{IsCached, status_success_iff}

clash : true ≡ false → ⊥
clash e = cc

negated_false : {b : Bool} → not b ≡ false → b ≡ true
negated_false {b = true} e = refl
negated_false {b = false} e = cc

module _ (host : Host) (cache : DiskModelCache) where
  status_found_lem :
      (name : String) (found : Option CachedModelRecord)
      → is_usable found ≡ (status_found host cache name found).success
  unfolding status_found
  status_found_lem name none = refl
  status_found_lem name (some r) = refl

  -- The status depends on the repositories alone.
  status_transfers :
      (name : String) (disk after : Disk)
      → after.repositories ≡ disk.repositories
      → (status host cache name disk).success ≡ true
      → (status host cache name after).success ≡ true
  status_transfers name disk after same h = (status_success_iff host cache name after).1 (
      subst
        (λ repositories. IsCached host cache name (lookup (repo_directory_name name) repositories))
        (sym same) ((status_success_iff host cache name disk).0 h))

  marker_keeps :
      (name : String) (answer : Option String) (disk : Disk)
      → ((marker_written host cache name answer disk).1).repositories ≡ disk.repositories
  unfolding marker_written mark
  marker_keeps name none disk = refl
  marker_keeps name (some error) disk = refl

  marked_keeps :
      (name : String) (r : CachedModelRecord) (metadata : Dict Value) (disk : Disk)
      → ((marked_result host cache name r metadata disk).1).repositories ≡ disk.repositories
  unfolding marked_result write_readiness_marker
  marked_keeps name r metadata disk =
      marker_keeps r.model_name (host.write_text (readiness_marker host cache r.model_name) disk)
        disk

  -- A successful preload, by the disk that it started from or that the download left.
  Preloaded : String → CacheCommandResult × Disk → Type 0
  Preloaded name r = (r.0).success ≡ true → (status host cache name (r.1)).success ≡ true

  scanned_status :
      (name : String) (r : CachedModelRecord) (disk : Disk)
      → scan_record host cache name disk ≡ some r
      → is_cached_on_disk r ≡ true
      → (status host cache name disk).success ≡ true
  unfolding status record_of or_seeded
  scanned_status name r disk e h = rw e (sym (status_found_lem name (some r)) ∙ h)

  marked_success :
      (name : String) (r : CachedModelRecord) (metadata : Dict Value) (disk : Disk)
      → ((marked_result host cache name r metadata disk).0).success ≡ true
  unfolding marked_result
  marked_success name r metadata disk = refl

  fails-Preloaded :
      (name : String) (r : CacheCommandResult × Disk) → (r.0).success ≡ false → Preloaded name r
  unfolding Preloaded
  fails-Preloaded name r failed h = absurd (clash (sym h ∙ failed))

  marked-Preloaded :
      (name : String) (r : CachedModelRecord) (metadata : Dict Value) (disk : Disk)
      → (status host cache name disk).success ≡ true
      → Preloaded name (marked_result host cache name r metadata disk)
  unfolding Preloaded
  marked-Preloaded name r metadata disk h _ =
      status_transfers name disk ((marked_result host cache name r metadata disk).1)
        (marked_keeps name r metadata disk) h

  landed-Preloaded :
      (name path : String) (found : Option CachedModelRecord) (disk : Disk)
      → scan_record host cache name disk ≡ found
      → Preloaded name (landed host cache name path found disk)
  unfolding landed
  landed-Preloaded name path none disk e = fails-Preloaded name _ refl
  landed-Preloaded name path (some r) disk e =
      if_case (Preloaded name) (not (is_cached_on_disk r)) (λ _. fails-Preloaded name _ refl)
        λ cached.
          marked-Preloaded name r (landed_facts host cache path) disk
            (scanned_status name r disk e (negated_false cached))

  after_download-Preloaded :
      (name : String) (d : Download) (disk : Disk)
      → Preloaded name (after_download host cache name d disk)
  unfolding after_download
  after_download-Preloaded name (unavailable error) disk = fails-Preloaded name _ refl
  after_download-Preloaded name (Download.failed type_name error left) disk =
      fails-Preloaded name _ refl
  after_download-Preloaded name (downloaded path left) disk =
      landed-Preloaded name path (scan_record host cache name left) left refl

  found_status :
      (name : String) (r : CachedModelRecord) (disk : Disk)
      → record_of host cache name disk ≡ some r
      → is_cached_on_disk r ≡ true
      → (status host cache name disk).success ≡ true
  unfolding status
  found_status name r disk e h = rw e (sym (status_found_lem name (some r)) ∙ h)

  preload_beside-Preloaded :
      (name : String) (found : Option CachedModelRecord) (disk : Disk)
      → record_of host cache name disk ≡ found
      → Preloaded name (preload_beside host cache name found disk)
  unfolding preload_beside
  preload_beside-Preloaded name none disk e =
      after_download-Preloaded name (host.snapshot_download name disk) disk
  preload_beside-Preloaded name (some r) disk e =
      if_case (Preloaded name) (is_cached_on_disk r)
        (λ cached.
          marked-Preloaded name r (already_facts host cache) disk
            (found_status name r disk e cached))
        (λ _. after_download-Preloaded name (host.snapshot_download name disk) disk)

  spared :
      (name : String) (found : Option CachedModelRecord) (disk : Disk)
      → is_usable found ≡ true
      → (((preload_beside host cache name found disk).0).success ≡ true)
        × (((preload_beside host cache name found disk).1).repositories ≡ disk.repositories)
  unfolding preload_beside
  spared name none disk h = cc
  spared name (some r) disk h = rw h (
    marked_success name r (already_facts host cache) disk,
    marked_keeps name r (already_facts host cache) disk,
  )

  -- When a preload succeeds, the status of the model succeeds on the disk that it leaves, whatever
  -- the hub client did.
  pub preload-status :
      (name : String) (disk : Disk)
      → ((preload host cache name disk).0).success ≡ true
      → (status host cache name ((preload host cache name disk).1)).success ≡ true
  unfolding preload Preloaded
  preload-status name disk =
      preload_beside-Preloaded name (record_of host cache name disk) disk refl

  -- When the status of the model succeeded before, a preload succeeds and leaves the repositories
  -- as they were.
  pub status-preload :
      (name : String) (disk : Disk)
      → (status host cache name disk).success ≡ true
      → (((preload host cache name disk).0).success ≡ true)
        × (((preload host cache name disk).1).repositories ≡ disk.repositories)
  unfolding preload status
  status-preload name disk h =
      let found = record_of host cache name disk in
      spared name found disk (status_found_lem name found ∙ h)

  stored_lem :
      (name : String) (metadata : Dict Value) (disk : Disk)
      → stored_metadata name (store name metadata disk) ≡ metadata
  unfolding stored_metadata store
  stored_lem name metadata disk =
      let key = repo_directory_name name in
      let state = record (or_else (lookup key disk.states) no_state) { stored = metadata } in
      ap stored_of (lookup_inserted key state disk.states)

  -- The outcomes of an update of the metadata.
  unfoldable pub Updated : String → Dict Value → Disk → CacheCommandResult × Disk → Type 0
  Updated name metadata disk r =
      (((r.0).success ≡ false) × (r.1 ≡ disk))
      ⊎ (((r.0).success ≡ true)
          × (stored_metadata name (r.1) ≡ update (stored_metadata name disk) metadata)
          × ((r.1).repositories ≡ disk.repositories))

  updated_result_lem :
      (name : String) (r : CachedModelRecord) (metadata : Dict Value) (answer : Option String)
      (disk : Disk)
      → Updated name metadata disk (
          updated_result host cache name r
            (update (stored_metadata name disk) metadata)
            answer
            disk)
  unfolding updated_result Updated
  updated_result_lem name r metadata (some error) disk = inl (refl, refl)
  updated_result_lem name r metadata none disk =
      inr (refl, stored_lem name (update (stored_metadata name disk) metadata) disk, refl)

  update_found_lem :
      (name : String) (metadata : Dict Value) (found : Option CachedModelRecord) (disk : Disk)
      → Updated name metadata disk (update_found host cache name metadata found disk)
  unfolding update_found Updated
  update_found_lem name metadata none disk = inl (refl, refl)
  update_found_lem name metadata (some r) disk =
      updated_result_lem name r metadata (host.write_text (metadata_path host cache name) disk) disk

  -- An update of the metadata that fails leaves the disk as it was; one that succeeds leaves the
  -- stored mapping with the new keys laid over the old ones, and the repositories as they were.
  pub update-stored :
      (name : String) (metadata : Dict Value) (disk : Disk)
      → Updated name metadata disk (update_metadata host cache name metadata disk)
  unfolding update_metadata
  update-stored name metadata disk =
      update_found_lem name metadata (record_of host cache name disk) disk
