-- ===== src/ModelCache/Reported.antt =====
-- lmrs/model_cache.py: `status` and `check_integrity` agree with the state of the repository.
use vvz_lmrs.Prelude.{
  String, Bool, true, false, ◌&&◌, not, ◌==◌, ◌≡◌, refl, ap, sym, ◌∙◌, ◌↔◌, Option, none, some,
  List, [], ◌∷◌, ◌++◌, if◌then◌else◌, eq_iff,
}
use vvz_lmrs.Prelude.Value.{Value, Fields}
use vvz_lmrs.Prelude.Dict.{Dict, lookup}
use vvz_lmrs.Lifecycle.{texts, fields}
use vvz_lmrs.ModelCache.{
  CachedModelRecord, CacheCommandResult, Snapshot, Repository, Disk, DiskModelCache, Host,
}
use vvz_lmrs.ModelCache.Layout.{
  repo_directory_name, resolve_revision, snapshot_directory, incomplete_downloads,
}
use vvz_lmrs.ModelCache.Snapshots.{broken_entries, weight_files, missing_shards}
use vvz_lmrs.ModelCache.Scan.{
  is_empty, is_complete, scan_status, scan_record, scan_repository, scan_snapshot, with_snapshot,
  without_snapshot, seeded_record, record_of, or_seeded,
}
use vvz_lmrs.ModelCache.Commands.{is_cached_on_disk, is_usable, status, status_found}
use vvz_lmrs.ModelCache.Inspection.{
  check_integrity, integrity_found, problems_of, list_problem, no_problems,
}
use vvz_lmrs.ModelCache.Complete.{IsReady, scan_snapshot_iff}

-- The problems, when the lists of a scan are these.
listed_problems : List String → List String → List String → List String → Dict Value
listed_problems weights broken missing incomplete =
    list_problem "broken_entries" (some (Value.list (texts broken)))
    ++ (list_problem "missing_shards" (some (Value.list (texts missing)))
        ++ (list_problem "incomplete_blobs" (some (Value.list (texts incomplete)))
            ++ (if not (is_empty weights) then [] else ("weights_present", Value.bool false) ∷ [])))

listed_none :
    (weights broken missing incomplete : List String)
    → is_complete weights broken missing incomplete ≡ true
    → listed_problems weights broken missing incomplete ≡ []
unfolding listed_problems list_problem is_complete texts
listed_none [] broken missing incomplete h = cc
listed_none (w ∷ ws) [] [] [] h = refl
listed_none (w ∷ ws) (b ∷ bs) missing incomplete h = cc
listed_none (w ∷ ws) [] (m ∷ ms) incomplete h = cc
listed_none (w ∷ ws) [] [] (i ∷ is) h = cc

never_cached : (b : Bool) → ((if b then "failed" else "caching") == "cached_on_disk") ≡ true → ⊥
never_cached true e = cc
never_cached false e = cc

and_sound : (a b : Bool) → (a ≡ true → b ≡ true) → (a && b) ≡ a
and_sound true b sound = sound refl
and_sound false b sound = refl

cached_complete :
    (complete : Bool) (incomplete : List String)
    → (scan_status complete incomplete == "cached_on_disk") ≡ true
    → complete ≡ true
unfolding scan_status
cached_complete true incomplete h = refl
cached_complete false [] h = absurd (wrong h)
  where
    wrong : ("failed" == "cached_on_disk") ≡ true → ⊥
    wrong e = cc
cached_complete false (x ∷ xs) h = absurd (wrong h)
  where
    wrong : ("caching" == "cached_on_disk") ≡ true → ⊥
    wrong e = cc

module _ (host : Host) (cache : DiskModelCache) where
  -- What a success of `status` says of the directory of a model, or, where there is none, of the
  -- record that the caller has supplied.
  unfoldable pub IsCached : String → Option Repository → Type 0
  unfolding IsReady
  IsCached name none = is_usable (seeded_record host cache name) ≡ true
  IsCached name (some repo) = IsReady host cache repo

  status_found_lem :
      (name : String) (found : Option CachedModelRecord)
      → (status_found host cache name found).success ≡ is_usable found
  unfolding status_found
  status_found_lem name none = refl
  status_found_lem name (some r) = refl

  repository_iff :
      (name : String) (found : Option Repository) (disk : Disk)
      → (is_usable (or_seeded host cache (scan_repository host cache name found disk) name) ≡ true)
        ↔ IsCached name found
  unfolding IsCached scan_repository or_seeded
  repository_iff name none disk = (λ h. h, λ h. h)
  repository_iff name (some repo) disk =
      let revision = resolve_revision repo in
      let s = snapshot_directory repo revision in
      let (there, back) = scan_snapshot_iff host cache name repo s disk refl in
      let (same, equal) =
        eq_iff (scan_snapshot host cache name repo s disk).cache_status "cached_on_disk" in
      (λ h. there (same h), λ r. equal (back r))

  -- A status succeeds exactly when the repository of the model has a snapshot to point at, with
  -- weights, with every entry leading to a file and every indexed shard there, and no download in
  -- flight; for a model without repository, when the caller supplied a record that says so.
  pub status_success_iff :
      (name : String) (disk : Disk)
      → ((status host cache name disk).success ≡ true)
        ↔ IsCached name (lookup (repo_directory_name name) disk.repositories)
  unfolding status record_of scan_record
  status_success_iff name disk =
      let found = record_of host cache name disk in
      let (there, back) =
        repository_iff name (lookup (repo_directory_name name) disk.repositories) disk in
      (
        λ h. there (sym (status_found_lem name found) ∙ h),
        λ c. status_found_lem name found ∙ back c,
      )

  problems_with_snapshot :
      (name : String) (repo : Repository) (s : Snapshot) (disk : Disk)
      → problems_of (with_snapshot host cache name repo s disk)
        ≡ listed_problems
            (weight_files s)
            (broken_entries s)
            (missing_shards host.show s)
            (incomplete_downloads repo)
  unfolding problems_of with_snapshot listed_problems lookup
  problems_with_snapshot name repo s disk = refl

  sound_problems :
      (name : String) (repo : Repository) (found : Option Snapshot) (disk : Disk)
      → is_cached_on_disk (scan_snapshot host cache name repo found disk) ≡ true
      → no_problems (problems_of (scan_snapshot host cache name repo found disk)) ≡ true
  unfolding scan_snapshot with_snapshot without_snapshot
  sound_problems name repo none disk h =
      absurd (never_cached (is_empty (incomplete_downloads repo)) h)
  sound_problems name repo (some s) disk h =
      let weights = weight_files s in
      let broken = broken_entries s in
      let missing = missing_shards host.show s in
      let incomplete = incomplete_downloads repo in
      ap no_problems (
        problems_with_snapshot name repo s disk
        ∙ listed_none weights broken missing incomplete
            (cached_complete (is_complete weights broken missing incomplete) incomplete h))

  not_empty : (ps : Dict Value) (p : String × Value) → no_problems (ps ++ (p ∷ [])) ≡ true → ⊥
  not_empty [] p h = cc
  not_empty (q ∷ ps) p h = cc

  listed_cached :
      (weights broken missing incomplete : List String)
      → no_problems (listed_problems weights broken missing incomplete) ≡ true
      → (scan_status (is_complete weights broken missing incomplete) incomplete == "cached_on_disk")
        ≡ true
  unfolding listed_problems list_problem is_complete texts scan_status
  listed_cached [] [] [] [] h = cc
  listed_cached [] [] [] (i ∷ is) h = cc
  listed_cached [] [] (m ∷ ms) incomplete h = cc
  listed_cached [] (b ∷ bs) missing incomplete h = cc
  listed_cached (w ∷ ws) [] [] [] h = refl
  listed_cached (w ∷ ws) (b ∷ bs) missing incomplete h = cc
  listed_cached (w ∷ ws) [] (m ∷ ms) incomplete h = cc
  listed_cached (w ∷ ws) [] [] (i ∷ is) h = cc

  complete_problems :
      (name : String) (repo : Repository) (found : Option Snapshot) (disk : Disk)
      → no_problems (problems_of (scan_snapshot host cache name repo found disk)) ≡ true
      → is_cached_on_disk (scan_snapshot host cache name repo found disk) ≡ true
  unfolding scan_snapshot with_snapshot without_snapshot problems_of list_problem lookup
  complete_problems name repo none disk h = absurd (not_empty _ _ h)
  complete_problems name repo (some s) disk h =
      listed_cached (weight_files s) (broken_entries s) (missing_shards host.show s)
        (incomplete_downloads repo)
        (ap no_problems (sym (problems_with_snapshot name repo s disk)) ∙ h)

  no_problems-fields :
      (ps : Dict Value)
      → (no_problems ps ≡ true) ↔ (some (Value.dict (fields ps)) ≡ some (Value.dict Fields.end))
  unfolding fields
  no_problems-fields [] = (λ _. refl, λ _. refl)
  no_problems-fields (p ∷ ps) = (λ e. cc, λ e. cc)

  -- What the check of one record says: its success, and the problems that it names.
  IsChecked : Type 0 → CacheCommandResult → Type 0
  IsChecked Ready r =
      ((r.success ≡ true) ↔ Ready)
      × ((lookup "problems" r.metadata ≡ some (Value.dict Fields.end)) ↔ Ready)

  both_true : (a b : Bool) → (a ≡ true → b ≡ true) → (a && b) ≡ a
  both_true true b sound = sound refl
  both_true false b sound = refl

  integrity_found_lem :
      (name : String) (repo : Repository) (found : Option Snapshot) (disk : Disk)
      → snapshot_directory repo (resolve_revision repo) ≡ found
      → IsChecked
          (IsReady host cache repo)
          (integrity_found host cache name (some (scan_snapshot host cache name repo found disk)))
  unfolding integrity_found IsChecked lookup
  integrity_found_lem name repo found disk eq =
      let r = scan_snapshot host cache name repo found disk in
      let sound = sound_problems name repo found disk in
      let (there, back) = scan_snapshot_iff host cache name repo found disk eq in
      let (same, equal) = eq_iff r.cache_status "cached_on_disk" in
      let (empty, none_named) = no_problems-fields (problems_of r) in
      let both = both_true (is_cached_on_disk r) (no_problems (problems_of r)) sound in
      (
        (λ h. there (same (sym both ∙ h)), λ ready. both ∙ equal (back ready)),
        (
          λ h. there (same (complete_problems name repo found disk (none_named h))),
          λ ready. empty (sound (equal (back ready))),
        ),
      )

  -- For a model that has a repository on disk, the integrity check succeeds, and names no problem,
  -- exactly when the repository has a snapshot to point at, with weights, with every entry leading to
  -- a file and every indexed shard there, and no download in flight; a config is not asked for.
  pub integrity_iff :
      (name : String) (disk : Disk) (repo : Repository)
      → lookup (repo_directory_name name) disk.repositories ≡ some repo
      → ((check_integrity host cache name disk).success ≡ true ↔ IsReady host cache repo)
        × ((lookup "problems" (check_integrity host cache name disk).metadata
              ≡ some (Value.dict Fields.end))
            ↔ IsReady host cache repo)
  unfolding check_integrity record_of scan_record or_seeded scan_repository IsChecked
  integrity_iff name disk repo present =
      rw present
        (integrity_found_lem name repo (snapshot_directory repo (resolve_revision repo)) disk refl)
