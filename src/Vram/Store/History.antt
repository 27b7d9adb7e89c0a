-- ===== src/Vram/Store/History.antt =====
-- What the file of `VramFactsStore` holds after a history of records, with writes that may fail.
use vvz_lmrs.Prelude.{
  All, subst, sym, ◌∙◌, ◌≡◌, refl, Bool, true, false, not, ◌&&◌, some, String, List, [], ◌∷◌,
  if_case,
}
use vvz_lmrs.Prelude.Int.{ℤ}
use vvz_lmrs.Prelude.Dict.{Dict, lookup, lookup-insert}
use vvz_lmrs.Prelude.Value.{Value}
use vvz_lmrs.Vram.Store.{
  static_facts, GpuMemoryMeasurement, StoredFile, WriteOutcome, written, refused, torn, read, write,
  is_false, baseline_facts, loaded_facts, record_service_baseline, record_model_loaded,
}
use vvz_lmrs.Vram.Store.Honest.{
  IsHonest, unknown, baseline-IsHonest, loaded-IsHonest, lookup-static_facts_other,
}

-- One record on the store, and the answer of the operating system to its write.
pub data Entry : Type 0 where
  baseline : GpuMemoryMeasurement → List String → Bool → WriteOutcome → Entry
  loaded : String → GpuMemoryMeasurement → String → String → WriteOutcome → Entry

unfoldable pub after_entry : Entry → StoredFile → StoredFile
after_entry (Entry.baseline m services served outcome) file =
    (record_service_baseline m services served outcome file).1
after_entry (Entry.loaded model m backend quantization outcome) file =
    (record_model_loaded model m backend quantization outcome file).1

unfoldable pub replay : List Entry → StoredFile → StoredFile
unfolding after_entry
replay [] file = file
replay (e ∷ es) file = replay es (after_entry e file)

write-IsHonest :
    (outcome : WriteOutcome) (facts : Dict Value) (file : StoredFile)
    → IsHonest facts
    → IsHonest (read file)
    → IsHonest (read (write outcome facts file).1)
unfolding read write
write-IsHonest written facts file h k = h
write-IsHonest (refused e) facts file h k = k
write-IsHonest (torn e) facts file h k = unfold lookup in unknown

abbrev HonestAfter : Dict Value × StoredFile → Type 0
HonestAfter r = IsHonest (read r.1)

module _ (m : GpuMemoryMeasurement) (outcome : WriteOutcome) (file : StoredFile) where
  after_baseline-IsHonest :
      (services : List String) (served : Bool)
      → IsHonest (read file)
      → IsHonest (read (record_service_baseline m services served outcome file).1)
  unfolding record_service_baseline
  after_baseline-IsHonest services served h =
      if_case HonestAfter (not m.is_ok) (λ _. h)
        (λ _.
          if_case HonestAfter (served && is_false (lookup "baseline_model_served" (read file)))
            (λ _. h)
            (λ free.
              write-IsHonest outcome (baseline_facts m services served (read file)) file
                (baseline-IsHonest m services served (read file) h free) h))

  after_loaded-IsHonest :
      (model backend quantization : String)
      → IsHonest (read file)
      → IsHonest (read (record_model_loaded model m backend quantization outcome file).1)
  unfolding record_model_loaded
  after_loaded-IsHonest model backend quantization h =
      if_case HonestAfter (not m.is_ok) (λ _. h)
        (λ _.
          write-IsHonest outcome _ file (loaded-IsHonest model m backend quantization (read file) h)
            h)

after_entry-IsHonest :
    (e : Entry) (file : StoredFile) → IsHonest (read file) → IsHonest (read (after_entry e file))
unfolding after_entry
after_entry-IsHonest (Entry.baseline m services served outcome) file h =
    after_baseline-IsHonest m outcome file services served h
after_entry-IsHonest (Entry.loaded model m backend quantization outcome) file h =
    after_loaded-IsHonest m outcome file model backend quantization h

-- From a file that is honest, no history of service baselines and model loads, with writes that are
-- refused or torn at any point, leaves a file that is not: a stored static figure is never negative
-- and always stands beside a baseline that is flagged as measured with no model served.
pub replay-IsHonest :
    (entries : List Entry) (file : StoredFile)
    → IsHonest (read file)
    → IsHonest (read (replay entries file))
unfolding replay
replay-IsHonest [] file h = h
replay-IsHonest (e ∷ es) file h =
    replay-IsHonest es (after_entry e file) (after_entry-IsHonest e file h)

baseline_kept :
    (m : GpuMemoryMeasurement) (services : List String) (outcome : WriteOutcome) (file : StoredFile)
    → lookup "baseline_model_served" (read file) ≡ some (Value.bool false)
    → record_service_baseline m services true outcome file ≡ (read file, file)
unfolding record_service_baseline is_false
baseline_kept m services outcome file h =
    if_case (λ r. r ≡ (read file, file)) (not m.is_ok) (λ _. refl) (λ _. rw h)

-- A write that does not lose the old text.
abbrev pub keeps_text : WriteOutcome → Bool
keeps_text written = true
keeps_text (refused e) = true
keeps_text (torn e) = false

-- An entry that a running model may cause: a baseline measured while it is served, or a load whose
-- write does not lose the old text.
abbrev pub IsRunning : Entry → Type 0
IsRunning (Entry.baseline m services served outcome) = served ≡ true
IsRunning (Entry.loaded model m backend quantization outcome) = keeps_text outcome ≡ true

-- A mapping that holds the baseline `b`, measured with no model served.
abbrev pub HoldsBaseline : ℤ → Dict Value → Type 0
HoldsBaseline b facts =
    (lookup "baseline_model_served" facts ≡ some (Value.bool false))
    × (lookup "service_baseline_free_vram_bytes" facts ≡ some (Value.int b))

write-HoldsBaseline :
    (outcome : WriteOutcome) (b : ℤ) (facts : Dict Value) (file : StoredFile)
    → keeps_text outcome ≡ true
    → HoldsBaseline b facts
    → HoldsBaseline b (read file)
    → HoldsBaseline b (read (write outcome facts file).1)
unfolding read write
write-HoldsBaseline written b facts file whole h k = h
write-HoldsBaseline (refused e) b facts file whole h k = k
write-HoldsBaseline (torn e) b facts file whole h k = cc

loaded-HoldsBaseline :
    (model : String) (m : GpuMemoryMeasurement) (backend quantization : String) (b : ℤ)
    (facts : Dict Value)
    → HoldsBaseline b facts
    → HoldsBaseline b (static_facts m.free_bytes (loaded_facts model m backend quantization facts))
unfolding loaded_facts
loaded-HoldsBaseline model m backend quantization b facts h =
    let stored = loaded_facts model m backend quantization facts in
    (
      lookup-static_facts_other "baseline_model_served" (refl, refl) m.free_bytes stored
          ∙ simp (lookup-insert, h.0),
      lookup-static_facts_other "service_baseline_free_vram_bytes" (refl, refl) m.free_bytes stored
          ∙ simp (lookup-insert, h.1),
    )

after_entry-HoldsBaseline :
    (e : Entry) (b : ℤ) (file : StoredFile)
    → IsRunning e
    → HoldsBaseline b (read file)
    → HoldsBaseline b (read (after_entry e file))
unfolding after_entry record_model_loaded
after_entry-HoldsBaseline (Entry.baseline m services served outcome) b file running h =
    let kept : record_service_baseline m services served outcome file ≡ (read file, file) =
      subst (λ served. record_service_baseline m services served outcome file ≡ (read file, file))
        (sym running) (baseline_kept m services outcome file h.0) in
    subst (λ r. HoldsBaseline b (read r.1)) (sym kept) h
after_entry-HoldsBaseline (Entry.loaded model m backend quantization outcome) b file running h =
    if_case (λ (r : Dict Value × StoredFile). HoldsBaseline b (read r.1)) (not m.is_ok) (λ _. h)
      (λ _.
        write-HoldsBaseline outcome b _ file running
          (loaded-HoldsBaseline model m backend quantization b (read file) h) h)

-- A baseline that was measured with no model served survives every history of readings that are
-- taken while a model is served and of model loads whose write does not lose the old text.
pub replay_keeps_baseline :
    (entries : List Entry) (b : ℤ) (file : StoredFile)
    → All IsRunning entries
    → HoldsBaseline b (read file)
    → HoldsBaseline b (read (replay entries file))
unfolding replay
replay_keeps_baseline [] b file running h = h
replay_keeps_baseline (e ∷ es) b file running h =
    replay_keeps_baseline es b (after_entry e file) running.1
      (after_entry-HoldsBaseline e b file running.0 h)
