-- ===== src/ModelCache/Complete.antt =====
-- lmrs/model_cache.py: what it takes for a model to be reported as cached on disk.
use vvz_lmrs.Prelude.{
  String, Bool, true, false, not, ◌≡◌, refl, sym, subst, ◌∙◌, ◌↔◌, ◌≢◌, Option, none, some, List,
  [], ◌∷◌, filter, All, filter-eq-nil_iff, if◌then◌else◌,
}
use vvz_lmrs.Prelude.Value.{Value}
use vvz_lmrs.ModelCache.{Entry, Snapshot, Repository, Disk, DiskModelCache, Host}
use vvz_lmrs.ModelCache.Layout.{resolve_revision, snapshot_directory, incomplete_downloads}
use vvz_lmrs.ModelCache.Snapshots.{
  entry_names, is_broken, is_weight, target_is_file, has_file, named_shards, broken_entries,
  weight_files, missing_shards,
}
use vvz_lmrs.ModelCache.Scan.{
  is_empty, is_complete, scan_status, scan_snapshot, with_snapshot, without_snapshot,
}

-- A snapshot that the runtime can load: it has weights, every entry leads to a file, and every
-- shard that an index names is there.
unfoldable pub IsLoadable : (Value → String) → Snapshot → Type 0
IsLoadable show s =
    (filter is_weight s.entries ≢ [])
    × All (λ (e : Entry). target_is_file e.target ≡ true) s.entries
    × All (λ shard. has_file shard s.entries ≡ true) (named_shards show s)

is_empty-eq-true : (xs : List String) → (is_empty xs ≡ true) ↔ (xs ≡ [])
is_empty-eq-true [] = (λ _. refl, λ _. refl)
is_empty-eq-true (x ∷ xs) = (λ e. cc, λ e. cc)

entry_names-eq-nil : (es : List Entry) → (is_empty (entry_names es) ≡ true) ↔ (es ≡ [])
unfolding entry_names
entry_names-eq-nil [] = (λ _. refl, λ _. refl)
entry_names-eq-nil (e ∷ es) = (λ h. cc, λ h. cc)

not-eq-false : (b : Bool) → (not b ≡ false) ↔ (b ≡ true)
not-eq-false true = (λ _. refl, λ _. refl)
not-eq-false false = (λ e. cc, λ e. cc)

All-map :
    {A : Type 0} (P Q : A → Type 0) (xs : List A) → ((a : A) → P a → Q a) → All P xs → All Q xs
All-map P Q [] f h = tt
All-map P Q (x ∷ xs) f h = (f x h.0, All-map P Q xs f h.1)

-- A list with no member that fails a test.
none_fails :
    {A : Type 0} (test : A → Bool) (xs : List A)
    → (filter (λ x. not (test x)) xs ≡ []) ↔ All (λ x. test x ≡ true) xs
none_fails test xs =
    let (there, back) = filter-eq-nil_iff (λ x. not (test x)) xs in
    (
      λ e.
          All-map (λ x. not (test x) ≡ false) (λ x. test x ≡ true) xs
            (λ x. (not-eq-false (test x)).0) (there e),
      λ h. back (
          All-map (λ x. test x ≡ true) (λ x. not (test x) ≡ false) xs
            (λ x. (not-eq-false (test x)).1) h),
    )

scan_status-eq-cached :
    (complete : Bool) (incomplete : List String)
    → (scan_status complete incomplete ≡ "cached_on_disk")
      ↔ ((is_empty incomplete ≡ true) × (complete ≡ true))
unfolding scan_status
scan_status-eq-cached true [] = (λ _. (refl, refl), λ _. refl)
scan_status-eq-cached false [] = (λ e. cc, λ h. cc)
scan_status-eq-cached complete (x ∷ xs) = (λ e. cc, λ h. cc)

is_complete-eq-true :
    (weights broken missing incomplete : List String)
    → (is_complete weights broken missing incomplete ≡ true) ↔ (
        (is_empty weights ≡ false)
        × (is_empty broken ≡ true)
        × (is_empty missing ≡ true)
        × (is_empty incomplete ≡ true))
unfolding is_complete
is_complete-eq-true [] broken missing incomplete = (λ e. cc, λ h. cc)
is_complete-eq-true (w ∷ ws) [] [] [] = (λ _. (refl, refl, refl, refl), λ _. refl)
is_complete-eq-true (w ∷ ws) (b ∷ bs) missing incomplete = (λ e. cc, λ h. cc)
is_complete-eq-true (w ∷ ws) [] (m ∷ ms) incomplete = (λ e. cc, λ h. cc)
is_complete-eq-true (w ∷ ws) [] [] (i ∷ is) = (λ e. cc, λ h. cc)

clash : true ≡ false → ⊥
clash e = cc

not_true : (b : Bool) → (b ≡ true → ⊥) → b ≡ false
not_true true f = absurd (f refl)
not_true false f = refl

never : (b : Bool) → ◌≡◌ {A = String} (if b then "failed" else "caching") "cached_on_disk" → ⊥
never true e = cc
never false e = cc

absence : {A : Type 0} {a : A} → none ≡ some a → ⊥
absence e = cc

some_injective : {A : Type 0} {a b : A} → some a ≡ some b → a ≡ b
some_injective e = cc

module _ (host : Host) (cache : DiskModelCache) where
  -- The complete state of a repository: a snapshot to point at, and no download in flight.
  unfoldable pub IsReady : Repository → Type 0
  unfolding IsLoadable
  IsReady repo =
      (s : Snapshot) × (snapshot_directory repo (resolve_revision repo) ≡ some s)
      × (incomplete_downloads repo ≡ [])
      × IsLoadable host.show s

  snapshot_complete :
      (s : Snapshot) (incomplete : List String)
      → (is_complete (weight_files s) (broken_entries s) (missing_shards host.show s) incomplete
          ≡ true)
        ↔ (IsLoadable host.show s × (incomplete ≡ []))
  unfolding IsLoadable weight_files broken_entries missing_shards is_broken
  snapshot_complete s incomplete =
      let (there, back) =
        is_complete-eq-true (weight_files s) (broken_entries s) (missing_shards host.show s)
          incomplete in
      let (weighed, weigh) = entry_names-eq-nil (filter is_weight s.entries) in
      let (unbroken, unbreak) = entry_names-eq-nil (filter is_broken s.entries) in
      let (whole, mend) = none_fails (λ (e : Entry). target_is_file e.target) s.entries in
      let (present, provide) =
        none_fails (λ shard. has_file shard s.entries) (named_shards host.show s) in
      let (emptied, empty) = is_empty-eq-true (missing_shards host.show s) in
      let (ended, end) = is_empty-eq-true incomplete in
      (
        λ h.
            let (w, b, m, i) = there h in
            (
              (
                λ none_left. clash (sym (weigh none_left) ∙ w),
                whole (unbroken b),
                present (emptied m),
              ),
              ended i,
            ),
        λ ((w, b, m), i). back (
          not_true (is_empty (weight_files s)) (λ e. w (weighed e)),
          unbreak (mend b),
          empty (provide m),
          end i,
        ),
      )

  with_snapshot_iff :
      (name : String) (repo : Repository) (s : Snapshot) (disk : Disk)
      → ((with_snapshot host cache name repo s disk).cache_status ≡ "cached_on_disk")
        ↔ ((incomplete_downloads repo ≡ []) × IsLoadable host.show s)
  unfolding with_snapshot
  with_snapshot_iff name repo s disk =
      let incomplete = incomplete_downloads repo in
      let complete =
        is_complete (weight_files s) (broken_entries s) (missing_shards host.show s) incomplete in
      let (there, back) = scan_status-eq-cached complete incomplete in
      let (whole, mend) = snapshot_complete s incomplete in
      let (ended, end) = is_empty-eq-true incomplete in
      (λ h. (ended ((there h).0), (whole ((there h).1)).0), λ (i, l). back (end i, mend (l, i)))

  without_snapshot_not :
      (name : String) (repo : Repository) (disk : Disk)
      → (without_snapshot host cache name repo disk).cache_status ≡ "cached_on_disk"
      → ⊥
  unfolding without_snapshot
  without_snapshot_not name repo disk h = never (is_empty (incomplete_downloads repo)) h

  pub scan_snapshot_iff :
      (name : String) (repo : Repository) (found : Option Snapshot) (disk : Disk)
      → snapshot_directory repo (resolve_revision repo) ≡ found
      → ((scan_snapshot host cache name repo found disk).cache_status ≡ "cached_on_disk")
        ↔ IsReady repo
  unfolding scan_snapshot IsReady
  scan_snapshot_iff name repo none disk e = (
    λ h. absurd (without_snapshot_not name repo disk h),
    λ (s, at, _, _). absurd (absence (sym e ∙ at)),
  )
  scan_snapshot_iff name repo (some s) disk e =
      let (there, back) = with_snapshot_iff name repo s disk in
      (
        λ h. let (i, l) = there h in (s, e, i, l),
        λ (t, at, i, l). back (i, subst (IsLoadable host.show) (some_injective (sym at ∙ e)) l),
      )
