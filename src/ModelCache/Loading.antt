-- ===== src/ModelCache/Loading.antt =====
-- The disk cache as the model lifecycle uses it: a load without preload wants a complete repository.
use vvz_lmrs.Prelude.{
  String, true, false, ◌==◌, ◌≡◌, subst, Option, none, some, [], ◌∷◌, Result, ok, if◌then◌else◌,
  if_case,
}
use vvz_lmrs.Prelude.Dict.{Dict, lookup}
use vvz_lmrs.Prelude.Value.{Value}
use vvz_lmrs.Lifecycle.{
  ModelMemoryLifecycle, LifecycleCommandResult, ProbeResult, DiskCache, CacheStatus, PreloadResult,
  Step, returned, ◌then◌,
}
use vvz_lmrs.Lifecycle.Memory.{
  load_model, load_beside, fetch, settle, cache_step, status_read, probe_step, recorder_step, Ended,
  not_cached,
}
use vvz_lmrs.Lifecycle.Residency.{is_success}
use vvz_lmrs.ModelCache.{CacheCommandResult, CachedModelRecord, Disk, DiskModelCache, Host}
use vvz_lmrs.ModelCache.Layout.{repo_directory_name}
use vvz_lmrs.ModelCache.Scan.{record_of}
use vvz_lmrs.ModelCache.Commands.{status, status_found, preload}
use vvz_lmrs.ModelCache.Reported.{IsCached, status_success_iff}

abbrev pub status_read_of : CacheCommandResult → CacheStatus
status_read_of r = record { status = some r.status; reason_code = r.reason_code }

unfoldable pub preload_read_of :
    {W : Type 0} → CacheCommandResult × Disk → W → Result PreloadResult × (Disk × W)
preload_read_of (r, disk) w =
    (ok (record { success = r.success; reason_code = r.reason_code }), (disk, w))

module _ (host : Host) (cache : DiskModelCache) where
  unfoldable pub status_in : {W : Type 0} → String → Disk × W → Result CacheStatus × (Disk × W)
  unfolding status
  status_in name (disk, w) = (ok (status_read_of (status host cache name disk)), (disk, w))

  unfoldable pub preload_in : {W : Type 0} → String → Disk × W → Result PreloadResult × (Disk × W)
  unfolding preload_read_of preload
  preload_in name (disk, w) = preload_read_of (preload host cache name disk) w

  -- The collaborator `disk_cache` of `ModelMemoryLifecycle`, in a world that has the disk in it.
  abbrev pub as_disk_cache : {W : Type 0} → DiskCache (Disk × W)
  as_disk_cache = record { status = status_in; preload = preload_in }

  status_cached :
      (name : String) (found : Option CachedModelRecord)
      → ((status_found host cache name found).status == "cached_on_disk") ≡ true
      → (status_found host cache name found).success ≡ true
  unfolding status_found
  status_cached name none h = absurd (other h)
    where
      other : ("not_cached" == "cached_on_disk") ≡ true → ⊥
      other e = cc
  status_cached name (some r) h = h

clash : false ≡ true → ⊥
clash e = cc

module _ {W : Type 0} (host : Host) (cache : DiskModelCache)
    (probe : Option (String → Disk × W → Result ProbeResult × (Disk × W)))
    (recorder : Option (String → Disk × W → Result (Dict Value) × (Disk × W)))
    (clock : Disk × W → String) where
  abbrev Settled :
      String
      → ModelMemoryLifecycle
      → Step LifecycleCommandResult (Dict Value) × (Disk × W)
      → Ended (Disk × W)
  Settled name m x = settle probe (some (as_disk_cache host cache)) recorder clock name m (
      x
      then probe_step probe (some (as_disk_cache host cache)) recorder clock name probe
      then recorder_step probe (some (as_disk_cache host cache)) recorder clock name recorder)

  refused_load :
      (name : String) (m : ModelMemoryLifecycle) (c : CacheStatus) (s : Disk × W)
      → is_success (
          (Settled name m (
            (
              returned (not_cached probe (some (as_disk_cache host cache)) recorder clock name c),
              s,
            ))).0)
        ≡ true
      → ⊥
  unfolding settle not_cached
  refused_load name m c s h = clash h

  through_status :
      (name : String) (m : ModelMemoryLifecycle) (metadata : Dict Value) (disk : Disk) (w : W)
      → is_success (
          (Settled name m (
            status_read probe
              (some (as_disk_cache host cache))
              recorder
              clock
              name
              metadata
              (status_in host cache name (disk, w)))).0)
        ≡ true
      → IsCached host cache name (lookup (repo_directory_name name) disk.repositories)
  unfolding status_read status_in
  through_status name m metadata disk w =
      let found = status host cache name disk in
      if_case
        (λ x.
          is_success ((Settled name m x).0) ≡ true
          → IsCached host cache name (lookup (repo_directory_name name) disk.repositories))
        (found.status == "cached_on_disk")
        (λ cached _.
          (status_success_iff host cache name disk).0
            (status_cached host cache name (record_of host cache name disk) cached))
        (λ _ h. absurd (refused_load name m (status_read_of found) (disk, w) h))

  through_cache :
      (name : String) (m : ModelMemoryLifecycle) (disk : Disk) (w : W)
      → is_success (
          (load_beside probe
            (some (as_disk_cache host cache))
            recorder
            clock
            none
            name
            false
            m
            (disk, w)).0)
        ≡ true
      → IsCached host cache name (lookup (repo_directory_name name) disk.repositories)
  unfolding load_beside fetch cache_step
  through_cache name m disk w =
      through_status name m (("allow_preload", Value.bool false) ∷ []) disk w

  -- With nothing resident and no leave to preload, a load that succeeds was of a model whose
  -- repository is complete on disk, or, without a repository, of one that the caller's record says
  -- is cached.
  pub load-IsCached :
      (name : String) (m : ModelMemoryLifecycle) (disk : Disk) (w : W)
      → m.current_residency ≡ none
      → is_success (
          (load_model probe
            (some (as_disk_cache host cache))
            recorder
            clock
            name
            false
            m
            (disk, w)).0)
        ≡ true
      → IsCached host cache name (lookup (repo_directory_name name) disk.repositories)
  unfolding load_model
  load-IsCached name m disk w idle succeeded = through_cache name m disk w (
      subst
        (λ o.
          is_success (
            (load_beside probe (some (as_disk_cache host cache)) recorder clock o name false m
              (disk, w)).0)
          ≡ true)
        idle succeeded)
