-- ===== src/Manager/Outcomes.antt =====
-- lmrs/manager.py: what the exit codes of the commands mean, and what the commands leave behind.
use vvz_lmrs.Prelude.{
  ℕ, ◌≡◌, refl, ap, String, Bool, true, false, none, some, ok, ◌⊎◌, inl, inr, if◌then◌else◌,
}
use vvz_lmrs.Prelude.Int.{ℤ}
use vvz_lmrs.Lifecycle.{text_or}
use vvz_lmrs.Manager.{Platform, PidFile, missing, done, calling}
use vvz_lmrs.Manager.State.{Recorded, read_state, config_path, clear_state}
use vvz_lmrs.Manager.Probe.{health_ok}
use vvz_lmrs.Manager.Process.{pid_alive}
use vvz_lmrs.Manager.Control.{
  stop_server, stop_recorded, stop_process, server_status, status_recorded, status_alive,
  kill_and_clear,
}
use vvz_lmrs.Manager.After.{
  After, After-followed_by, After-any, After-weaken, After-calling, clear_state_lem,
  kill_and_clear_lem,
}

-- No process is on record.
abbrev pub Unrecorded : PidFile → Type 0
Unrecorded f = (read_state f).0 ≡ none

pub missing-Unrecorded : (f : PidFile) → f ≡ missing → Unrecorded f
unfolding read_state
missing-Unrecorded f e = rw e refl

module _ {S : Type 0} (os : Platform S) where
  -- A stop that returned ended with 0, and left nothing on record.
  stop_process_lem :
      (pid : ℤ) (alive : Bool) (f : PidFile) (w : S)
      → After (stop_process os pid alive f w) (λ code g _. (code ≡ 0) × Unrecorded g)
  unfolding stop_process
  stop_process_lem pid false f w =
      After-followed_by (clear_state os f w) (λ _ f w. (done 0, f, w)) (λ _ g _. g ≡ missing)
        (λ code g _. (code ≡ 0) × Unrecorded g) (clear_state_lem os f w)
        λ _ f _ e. (refl, missing-Unrecorded f e)
  stop_process_lem pid true f w =
      After-followed_by (kill_and_clear os pid f w) (λ _ f w. (done 0, f, w)) (λ _ g _. g ≡ missing)
        (λ code g _. (code ≡ 0) × Unrecorded g) (kill_and_clear_lem os pid f w)
        λ _ f _ e. (refl, missing-Unrecorded f e)

  stop_recorded_lem :
      (r : Recorded) (f : PidFile) (w : S)
      → (read_state f).0 ≡ r.0
      → After (stop_recorded os r f w) (λ code g _. (code ≡ 0) × Unrecorded g)
  unfolding stop_recorded
  stop_recorded_lem (none, _) f w e = (refl, e)
  stop_recorded_lem (some pid, _) f w e =
      After-any (calling f (pid_alive os pid w)) (stop_process os pid)
        (λ code g _. (code ≡ 0) × Unrecorded g) (stop_process_lem pid)

  -- With nothing on record, a status is 3 and a stop is 0, and neither touches anything.
  unrecorded_idle :
      (r : Recorded) (f : PidFile) (w : S)
      → r.0 ≡ none
      → (status_recorded os r f w ≡ (done 3, f, w)) × (stop_recorded os r f w ≡ (done 0, f, w))
  unfolding status_recorded stop_recorded
  unrecorded_idle (none, _) f w e = (refl, refl)
  unrecorded_idle (some pid, _) f w e = cc

  -- A stop that returns ends with 0, whatever the process-id file holds, and after it the status is
  -- 3 and a second stop is 0; these two touch neither the file nor the world.
  pub stop_then_status :
      (f : PidFile) (w : S)
      → After (stop_server os f w) (λ code g v.
        (code ≡ 0)
        × (server_status os g v ≡ (done 3, g, v))
        × (stop_server os g v ≡ (done 0, g, v)))
  unfolding stop_server server_status
  stop_then_status f w =
      After-weaken (stop_recorded os (read_state f) f w) (λ code g _. (code ≡ 0) × Unrecorded g) _
        (stop_recorded_lem (read_state f) f w refl)
        λ code g v (ended, empty).
          let (idle, again) = unrecorded_idle (read_state g) g v empty in (ended, idle, again)

  -- What an exit code of `status` says.
  unfoldable pub StatusSays : String → ℤ → ℕ → PidFile → PidFile → S → S → Type 0
  StatusSays cfg pid code f g w v =
      ((code ≡ 3) × (g ≡ missing) × ((pid_alive os pid w).0 ≡ ok false))
      ⊎ ((g ≡ f)
          × ((u : S) × (pid_alive os pid w ≡ (ok true, u))
              × (((code ≡ 0) × (health_ok os cfg u ≡ (ok true, v)))
                  ⊎ ((code ≡ 1) × (health_ok os cfg u ≡ (ok false, v))))))

  unfoldable pub StatusEnds : Recorded → ℕ → PidFile → PidFile → S → S → Type 0
  unfolding StatusSays
  StatusEnds (none, _) code f g w v = (code ≡ 3) × (g ≡ f) × (v ≡ w)
  StatusEnds (some pid, cfg) code f g w v =
      StatusSays (text_or cfg (config_path os)) pid code f g w v

  healthy_says :
      (cfg : String) (healthy : Bool) (code : ℕ) (u v : S)
      → code ≡ (if healthy then 0 else 1)
      → health_ok os cfg u ≡ (ok healthy, v)
      → ((code ≡ 0) × (health_ok os cfg u ≡ (ok true, v)))
        ⊎ ((code ≡ 1) × (health_ok os cfg u ≡ (ok false, v)))
  healthy_says cfg true code u v reported e = inl (reported, e)
  healthy_says cfg false code u v reported e = inr (reported, e)

  status_alive_lem :
      (cfg : String) (pid : ℤ) (alive : Bool) (f : PidFile) (w u : S)
      → pid_alive os pid w ≡ (ok alive, u)
      → After (status_alive os cfg alive f u) (λ code g v. StatusSays cfg pid code f g w v)
  unfolding status_alive StatusSays
  status_alive_lem cfg pid false f w u e =
      After-followed_by (clear_state os f u) (λ _ f w. (done 3, f, w)) (λ _ g _. g ≡ missing)
        (λ code g v. StatusSays cfg pid code f g w v) (clear_state_lem os f u)
        λ _ g v gone. inl (refl, gone, ap (λ r. r.0) e)
  status_alive_lem cfg pid true f w u e =
      After-followed_by (calling f (health_ok os cfg u))
        (λ healthy f w. (done (if healthy then 0 else 1), f, w))
        (λ healthy g v. (health_ok os cfg u ≡ (ok healthy, v)) × (g ≡ f))
        (λ code g v. StatusSays cfg pid code f g w v) (After-calling f (health_ok os cfg u))
        λ healthy g v (seen, same).
          inr (same, (u, e, healthy_says cfg healthy (if healthy then 0 else 1) u v refl seen))

  status_recorded_lem :
      (r : Recorded) (f : PidFile) (w : S)
      → (read_state f).0 ≡ r.0
      → After (status_recorded os r f w) (λ code g v. StatusEnds r code f g w v)
  unfolding status_recorded StatusEnds
  status_recorded_lem (none, _) f w e = (refl, refl, refl)
  status_recorded_lem (some pid, cfg) f w e =
      let resolved = text_or cfg (config_path os) in
      After-followed_by (calling f (pid_alive os pid w)) (status_alive os resolved)
        (λ alive g u. (pid_alive os pid w ≡ (ok alive, u)) × (g ≡ f))
        (λ code g v. StatusSays resolved pid code f g w v) (After-calling f (pid_alive os pid w))
        λ alive g u (answer, same). rw same (status_alive_lem resolved pid alive f w u answer)

  -- A status that returns is 3 exactly when no process is on record, where nothing changes, or the
  -- process on record does not exist, where the file is removed; else the process on record exists,
  -- the file stays, and the status is 0 or 1 as the probe of `/health` passes or fails.
  pub status_says :
      (f : PidFile) (w : S)
      → After (server_status os f w) (λ code g v. StatusEnds (read_state f) code f g w v)
  unfolding server_status
  status_says f w = status_recorded_lem (read_state f) f w refl
