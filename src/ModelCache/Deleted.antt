-- ===== src/ModelCache/Deleted.antt =====
-- lmrs/model_cache.py: a deletion that succeeds leaves nothing of the model.
use vvz_lmrs.Prelude.{
  String, Bool, true, false, ◌≡◌, refl, ap, Option, none, some, is_some, List, [], ◌∷◌, filter,
  arith,
}
use vvz_lmrs.Prelude.Dict.{lookup, erase, lookup_erased}
use vvz_lmrs.ModelCache.{
  CachedModelRecord, Repository, Disk, DiskModelCache, Removal, removed, broken_off, Host,
}
use vvz_lmrs.ModelCache.Paths.{repository_path, state_directory}
use vvz_lmrs.ModelCache.Layout.{repo_directory_name}
use vvz_lmrs.ModelCache.Scan.{
  scan_record, scan_repository, record_of, or_seeded, seeded_among, seeded_record,
}
use vvz_lmrs.ModelCache.Commands.{status, status_found}
use vvz_lmrs.ModelCache.Deletion.{
  Swept, swept, stopped, sweep_answer, sweep, sweep_repository, sweep_state, is_unlike, Deleted,
  deleted_result, delete_found, delete,
}

-- No repository has the name, where the removals went through.
IsGone : String → Swept → Type 0
IsGone key (swept paths disk) = lookup key disk.repositories ≡ none
IsGone key (stopped error paths left) = Unit

seeded_left :
    (name : String) (records : List CachedModelRecord)
    → seeded_among name (filter (is_unlike name) records) ≡ none
unfolding seeded_among is_unlike
seeded_left name [] = refl
seeded_left name (item ∷ items) = ground (arith, seeded_left name items)

module _ (host : Host) (cache : DiskModelCache) where
  sweep_answer-IsGone :
      (key path : String) (disk : Disk) (paths : List String) (r : Removal)
      → IsGone key
          (sweep_answer path (record disk { repositories = erase key disk.repositories }) paths r)
  unfolding sweep_answer IsGone
  sweep_answer-IsGone key path disk paths removed = lookup_erased key disk.repositories
  sweep_answer-IsGone key path disk paths (broken_off error left) = tt

  sweep-IsGone :
      (key path : String) (disk : Disk) (paths : List String) (found : Option Repository)
      → lookup key disk.repositories ≡ found
      → IsGone key (
          sweep host cache
            (is_some found)
            path
            (record disk { repositories = erase key disk.repositories })
            paths
            disk)
  unfolding sweep IsGone
  sweep-IsGone key path disk paths none e = e
  sweep-IsGone key path disk paths (some repo) e =
      sweep_answer-IsGone key path disk paths (host.rmtree path disk)

  IsGone-kept :
      (key path : String) (disk after : Disk) (paths : List String) (r : Removal)
      → lookup key after.repositories ≡ none
      → IsGone key (sweep_answer path after paths r)
  unfolding sweep_answer IsGone
  IsGone-kept key path disk after paths removed gone = gone
  IsGone-kept key path disk after paths (broken_off error left) gone = tt

  IsGone-sweep :
      (key path : String) (disk after : Disk) (paths : List String) (present : Bool)
      → lookup key disk.repositories ≡ none
      → lookup key after.repositories ≡ none
      → IsGone key (sweep host cache present path after paths disk)
  unfolding sweep IsGone
  IsGone-sweep key path disk after paths true gone left =
      IsGone-kept key path disk after paths (host.rmtree path disk) left
  IsGone-sweep key path disk after paths false gone left = gone

  sweep_state-IsGone :
      (name : String) (r : Swept)
      → IsGone (repo_directory_name name) r
      → IsGone (repo_directory_name name) (sweep_state host cache name r)
  unfolding sweep_state IsGone
  sweep_state-IsGone name (stopped error paths left) h = tt
  sweep_state-IsGone name (swept paths disk) h =
      let key = repo_directory_name name in
      IsGone-sweep key (state_directory host cache name) disk
        (record disk { states = erase key disk.states }) paths (is_some (lookup key disk.states)) h
        h

  record_none :
      (kept : DiskModelCache) (name : String) (disk : Disk)
      → lookup (repo_directory_name name) disk.repositories ≡ none
      → seeded_among name kept.records ≡ none
      → record_of host kept name disk ≡ none
  unfolding record_of scan_record or_seeded scan_repository seeded_record
  record_none kept name disk gone unseeded = rw gone unseeded

  -- A success leaves no record of the model, on disk or among those the caller supplied.
  Erased : String → Deleted → Type 0
  Erased name r =
      (r.0).success ≡ true
      → ((status host (r.1) name (r.2)).status ≡ "not_cached")
        × (record_of host (r.1) name (r.2) ≡ none)

  deleted_result-Erased :
      (name : String) (r : CachedModelRecord) (s : Swept)
      → IsGone (repo_directory_name name) s
      → Erased name (deleted_result host cache name r s)
  unfolding deleted_result Erased IsGone status status_found
  deleted_result-Erased name r (stopped error paths left) gone h = cc
  deleted_result-Erased name r (swept paths left) gone h =
      let kept = record cache { records = filter (is_unlike name) cache.records } in
      let erased = record_none kept name left gone (seeded_left name cache.records) in
      (ap (λ found. (status_found host kept name found).status) erased, erased)

  delete_found-Erased :
      (name : String) (found : Option CachedModelRecord) (disk : Disk)
      → Erased name (delete_found host cache name found disk)
  unfolding delete_found Erased sweep_repository
  delete_found-Erased name none disk = λ h. cc
  delete_found-Erased name (some r) disk =
      let key = repo_directory_name name in
      deleted_result-Erased name r
        (sweep_state host cache name (sweep_repository host cache name disk))
        (sweep_state-IsGone name (sweep_repository host cache name disk) (
          sweep-IsGone key (repository_path host cache key) disk [] (lookup key disk.repositories)
            refl))

  -- After a deletion that succeeds there is no record of the model, on disk or supplied by the
  -- caller, and its status is "not_cached".
  pub delete-status :
      (name : String) (disk : Disk)
      → ((delete host cache name disk).0).success ≡ true
      → (record_of host ((delete host cache name disk).1) name ((delete host cache name disk).2)
          ≡ none)
        × ((status host
              ((delete host cache name disk).1)
              name
              ((delete host cache name disk).2)).status
            ≡ "not_cached")
  unfolding delete Erased
  delete-status name disk h =
      let (reported, erased) = delete_found-Erased name (record_of host cache name disk) disk h in
      (erased, reported)
