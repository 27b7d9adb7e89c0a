-- ===== src/Lifecycle/Flags.antt =====
-- `_SWITCHES_IN_PROGRESS`: what admission sees while a switch runs and afterwards.
use vvz_lmrs.Prelude.{
  some, ◌≡◌, refl, ap, arith, inl, inr, ◌∙◌, eq_iff, String, Bool, true, not, ◌==◌, ◌||◌, ◌&&◌,
  Option, List, [], ◌∷◌, Result, if_case, Bool-cases,
}
use vvz_lmrs.Prelude.Dict.{Dict}
use vvz_lmrs.Prelude.Value.{Value}
use vvz_lmrs.Lifecycle.{ModelMemoryLifecycle, ProbeResult, DiskCache}
use vvz_lmrs.Lifecycle.Switch.{
  SwitchResult, SwitchWorld, model_switch_in_progress, start_switch, end_switch, discarded,
  switch_stages, switch_model,
}
use vvz_lmrs.Lifecycle.Kept.{CallKeeps, CacheKeeps, DiskKeeps}
use vvz_lmrs.Lifecycle.KeptSwitch.{switch_stages-keeps}

in_end_switch :
    (other name : String) (names : List String)
    → model_switch_in_progress other (end_switch name names)
      ≡ not (name == other) && model_switch_in_progress other names
unfolding end_switch model_switch_in_progress
in_end_switch other name [] = ground arith
in_end_switch other name (n ∷ names) =
    ground (arith, eq_iff n name, eq_iff n other, eq_iff name other, in_end_switch other name names)

already :
    (other name : String) (names : List String)
    → model_switch_in_progress name names ≡ true
    → model_switch_in_progress other names ≡ (name == other || model_switch_in_progress other names)
already other name names h = elim (Bool-cases (name == other)) [
  | inl same ↦ rw (same, ← (eq_iff name other).0 same) h
  | inr differs ↦ rw differs refl
]

absorbed : (b c : Bool) → (not b && (b || c)) ≡ (not b && c)
absorbed b c = ground arith

in_start_switch :
    (other name : String) (names : List String)
    → model_switch_in_progress other (start_switch name names)
      ≡ (name == other || model_switch_in_progress other names)
unfolding start_switch
in_start_switch other name names =
    if_case
      (λ l.
        model_switch_in_progress other l ≡ (name == other || model_switch_in_progress other names))
      (model_switch_in_progress name names) (λ e. already other name names e)
      (λ _. unfold model_switch_in_progress in refl)

-- The models that are flagged are those before and the target.
abbrev pub IsFlagged : String → List String → List String → Type 0
IsFlagged name before switches =
    (other : String)
    → model_switch_in_progress other switches
      ≡ (name == other || model_switch_in_progress other before)

-- The flags of a running switch, and what a caller has seen of them.
abbrev pub Running : {S : Type 0} → String → List String → (S → Type 0) → SwitchWorld S → Type 0
Running name before Sees w = IsFlagged name before w.0 × Sees w.1

-- How a switch that was entered leaves the flags.
abbrev pub Unflagged : String → List String → List String → Type 0
Unflagged name before switches =
    (other : String)
    → model_switch_in_progress other switches
      ≡ (not (name == other) && model_switch_in_progress other before)

discarded_lem :
    {S : Type 0} (name : String) (before : List String) (Sees : S → Type 0)
    (out : SwitchResult × ModelMemoryLifecycle × SwitchWorld S)
    → Running name before Sees out.2
    → Unflagged name before (discarded name out).2.0 × Sees (discarded name out).2.1
unfolding discarded
discarded_lem name before Sees (r, m, (switches, s)) h = (
  λ other.
      in_end_switch other name switches
      ∙ ap (λ b. not (name == other) && b) (h.0 other)
      ∙ absorbed (name == other) (model_switch_in_progress other before),
  h.1,
)

-- While a switch runs, every call that it makes of the cache, the probe, the recorder and the callback
-- finds the target flagged, and no other model that was not flagged before: what all of them keep
-- on a world with these flags holds when the switch ends. Then the target is flagged no more,
-- and every other model is as it was before.
pub switch_flags :
    {S : Type 0} (Sees : S → Type 0)
    (model_probe : Option (String → SwitchWorld S → Result ProbeResult × SwitchWorld S))
    (disk_cache : Option (DiskCache (SwitchWorld S)))
    (vram_recorder : Option (String → SwitchWorld S → Result (Dict Value) × SwitchWorld S))
    (clock : SwitchWorld S → String)
    (progress_callback : Option (String → SwitchWorld S → Result (Unit {0}) × SwitchWorld S))
    (cache : DiskCache (SwitchWorld S)) (name : String) (m : ModelMemoryLifecycle)
    (before : List String) (s : S)
    → CallKeeps (Running name before Sees) model_probe
    → DiskKeeps (Running name before Sees) disk_cache
    → CallKeeps (Running name before Sees) vram_recorder
    → CallKeeps (Running name before Sees) progress_callback
    → CacheKeeps (Running name before Sees) cache
    → Sees s
    → let out =
        switch_model model_probe disk_cache vram_recorder clock progress_callback
          (some cache)
          name
          (some m)
          (before, s) in
      Unflagged name before out.2.0 × Sees out.2.1
unfolding switch_model
switch_flags Sees model_probe disk_cache vram_recorder clock progress_callback cache name m before s
      probe_keeps disk_keeps recorder_keeps callback_keeps cache_keeps seen =
    discarded_lem name before Sees
      (switch_stages model_probe disk_cache vram_recorder clock progress_callback cache name m
        (start_switch name before, s))
      (switch_stages-keeps (Running name before Sees) model_probe disk_cache vram_recorder clock
        progress_callback probe_keeps disk_keeps recorder_keeps callback_keeps cache name m
        (start_switch name before, s) cache_keeps
        (λ other. in_start_switch other name before, seen))
