-- ===== src/Examples/Lifecycles.antt =====
-- Examples of the theorems on residency and switches.
use vvz_lmrs.Prelude.{
  ℕ, ◌≡◌, refl, String, Bool, true, false, Option, none, some, List, [], ◌∷◌, All, Result, ok,
}
use vvz_lmrs.Lifecycle.{ModelMemoryLifecycle, ProbeResult, DiskCache}
use vvz_lmrs.Lifecycle.Memory.{load_model}
use vvz_lmrs.Lifecycle.Unload.{reload_model, unload_model}
use vvz_lmrs.Lifecycle.Residency.{LoadEnds, UnloadEnds, load_ends, unload_ends}
use vvz_lmrs.Lifecycle.Switch.{
  SwitchResult, SwitchWorld, model_switch_in_progress, switch_stages, switch_model,
}
use vvz_lmrs.Lifecycle.Reports.{reload_ends}
use vvz_lmrs.Lifecycle.Switching.{SwitchEnds, switch_ends}
use vvz_lmrs.Lifecycle.Blocked.{switch_blocked}
use vvz_lmrs.Lifecycle.Flags.{Running, Unflagged, switch_flags}
use vvz_lmrs.Examples.Data.{resident, lifecycle_of, serves, full_cache, noon}

abbrev idle : ModelMemoryLifecycle
idle = lifecycle_of none

abbrev busy : ModelMemoryLifecycle
busy = lifecycle_of (some (resident "qwen"))

abbrev probe : Option (String → ℕ → Result ProbeResult × ℕ)
probe = some (serves "qwen")

load_ends_example :
    LoadEnds probe
      (some full_cache)
      none
      noon
      "qwen"
      idle
      (load_model probe (some full_cache) none noon "qwen" false idle 0)
load_ends_example = load_ends probe (some full_cache) none noon "qwen" false idle 0

unload_ends_example :
    UnloadEnds none
      (some full_cache)
      none
      noon
      "qwen"
      busy
      (unload_model none (some full_cache) none noon "qwen" busy)
unload_ends_example = unload_ends none (some full_cache) none noon "qwen" busy

switch_ends_example :
    SwitchEnds "qwen" idle
      (switch_stages probe (some full_cache) none noon none full_cache "qwen" idle 0)
switch_ends_example = switch_ends probe (some full_cache) none noon none full_cache "qwen" idle 0

-- the switch from a resident model to another one
abbrev away : SwitchResult × ModelMemoryLifecycle × ℕ
away = switch_stages probe (some full_cache) none noon none full_cache "llama" busy 0

switch_blocked_example : (away.0.status ≡ "failed") × (away.1 ≡ busy)
switch_blocked_example =
    switch_blocked probe (some full_cache) none noon none full_cache "llama" busy 0
      (resident "qwen") refl refl refl

-- Collaborators that write down whether they find the target flagged.
abbrev Log : Type 0
Log = SwitchWorld (List Bool)

abbrev observe : Log → Log
observe (switches, seen) = (switches, model_switch_in_progress "qwen" switches ∷ seen)

abbrev observing : DiskCache Log
observing = record {
  status = λ name w. (ok (record { status = some "not_cached"; reason_code = none }), observe w);
  preload = λ name w. (ok (record { success = true; reason_code = none }), observe w);
}

abbrev listen : String → Log → Result (Unit {0}) × Log
listen stage w = (ok tt, observe w)

abbrev AllFlagged : List Bool → Type 0
AllFlagged seen = All (λ b. b ≡ true) seen

observe-keeps :
    (w : Log)
    → Running "qwen" ("llama" ∷ []) AllFlagged w
    → Running "qwen" ("llama" ∷ []) AllFlagged (observe w)
observe-keeps (switches, seen) h = (h.0, (h.0 "qwen", h.1))

abbrev flagged_switch : Result SwitchResult × Option ModelMemoryLifecycle × Log
flagged_switch =
    switch_model none none none (λ w. "12:00") (some listen) (some observing) "qwen" (some idle)
      ("llama" ∷ [], [])

switch_flags_example :
    Unflagged "qwen" ("llama" ∷ []) flagged_switch.2.0 × AllFlagged flagged_switch.2.1
switch_flags_example =
    switch_flags AllFlagged none none none (λ w. "12:00") (some listen) observing "qwen" idle
      ("llama" ∷ []) [] tt tt tt (λ stage w h. observe-keeps w h)
      (λ name w h. observe-keeps w h, λ name w h. observe-keeps w h) tt

reload_ends_example :
    LoadEnds probe
      (some full_cache)
      none
      noon
      "qwen"
      busy
      (reload_model probe (some full_cache) none noon "qwen" busy 0)
reload_ends_example = reload_ends probe (some full_cache) none noon "qwen" busy 0
