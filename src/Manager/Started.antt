-- ===== src/Manager/Started.antt =====
-- lmrs/manager.py: what an exit code of `start` says.
use vvz_lmrs.Prelude.{
  Exception, ℕ, ◌≡◌, refl, ap, ◌∙◌, String, Bool, true, false, Option, none, some, [], ◌∷◌, Result,
  ok, err, ◌⊎◌, inl, inr, sym, ◌≢◌,
}
use vvz_lmrs.Prelude.Int.{ℤ}
use vvz_lmrs.Prelude.Value.{decimal}
use vvz_lmrs.Lifecycle.{text_or}
use vvz_lmrs.Manager.{Platform, PidFile, missing, holding, done, Run, ◌followed_by◌, calling}
use vvz_lmrs.Manager.State.{
  run_dir, log_dir, Recorded, read_state, config_path, clear_state, write_state,
}
use vvz_lmrs.Manager.Probe.{health_ok}
use vvz_lmrs.Manager.Process.{pid_alive, wait_health}
use vvz_lmrs.Manager.Control.{
  start_at, start_recorded, start_beside, launch_server, spawn, polled, written_state, after_health,
  health_failed, kill_and_clear, open_log, make_dirs,
}
use vvz_lmrs.Manager.After.{
  After, After-followed_by, After-weaken, After-calling, clear_state_lem, kill_and_clear_lem,
  write_state_lem, wait_health_lem,
}
use vvz_lmrs.Manager.Outcomes.{Unrecorded, missing-Unrecorded}

module _ {S : Type 0} (os : Platform S) where
  -- The probe of `/health` passed last, where that was asked for.
  unfoldable pub Healthy : String → Bool → S → Type 0
  Healthy cfg false v = Unit
  Healthy cfg true v = (u : S) × (health_ok os cfg u ≡ (ok true, v))

  -- A server is launched and on record, and healthy where that was asked for.
  unfoldable pub Launched : String → Bool → PidFile → S → Type 0
  unfolding Healthy
  Launched cfg wait g v =
      (pid : ℤ) × ((u : S) × (u' : S) × (os.popen cfg u ≡ (ok pid, u')))
      × (g ≡ holding (decimal pid ∷ cfg ∷ []))
      × Healthy cfg wait v

  unfoldable pub LaunchEnds : String → Bool → ℕ → PidFile → S → Type 0
  unfolding Launched
  LaunchEnds cfg wait code g v = ((code ≡ 0) × Launched cfg wait g v) ⊎ ((code ≡ 1) × Unrecorded g)

  -- The log is open, and the process-id file as it was.
  open_log_lem : (f : PidFile) (w : S) → After (open_log os f w) (λ _ g _. g ≡ f)
  unfolding open_log make_dirs
  open_log_lem f w =
      After-followed_by (make_dirs os f w)
        (λ _ f w. calling f (os.open_log (os.join (log_dir os) "adapter.log") w)) (λ _ g _. g ≡ f)
        (λ _ g _. g ≡ f) (dirs f w)
        λ _ g v e.
          After-weaken (calling g (os.open_log (os.join (log_dir os) "adapter.log") v)) _ _
            (After-calling g (os.open_log (os.join (log_dir os) "adapter.log") v))
            λ _ h _ (_, same). same ∙ e
    where
      dirs : (f : PidFile) (w : S) → After (make_dirs os f w) (λ _ g _. g ≡ f)
      dirs f w =
          After-followed_by (calling f (os.make_dir (run_dir os) w))
            (λ _ f w. calling f (os.make_dir (log_dir os) w)) _ (λ _ g _. g ≡ f)
            (After-calling f (os.make_dir (run_dir os) w))
            λ _ g v (_, e).
              After-weaken (calling g (os.make_dir (log_dir os) v)) _ _
                (After-calling g (os.make_dir (log_dir os) v)) λ _ h _ (_, same). same ∙ e

  spawn_lem :
      (cfg : String) (f : PidFile) (w : S)
      → After (spawn os cfg f w) (λ pid g v. (g ≡ f) × ((u : S) × (os.popen cfg u ≡ (ok pid, v))))
  unfolding spawn
  spawn_lem cfg f w =
      After-followed_by (open_log os f w) (λ _ f w. calling f (os.popen cfg w)) (λ _ g _. g ≡ f)
        (λ pid g v. (g ≡ f) × ((u : S) × (os.popen cfg u ≡ (ok pid, v)))) (open_log_lem f w)
        λ _ g u e.
          After-weaken (calling g (os.popen cfg u)) _ _ (After-calling g (os.popen cfg u))
            λ pid h v (answer, same). (same ∙ e, (u, answer))

  health_failed_lem :
      (cfg : String) (wait : Bool) (pid : ℤ) (f : PidFile) (w : S)
      → After (health_failed os pid f w) (λ code g v. LaunchEnds cfg wait code g v)
  unfolding health_failed LaunchEnds
  health_failed_lem cfg wait pid f w =
      After-followed_by (kill_and_clear os pid f w) (λ _ f w. (done 1, f, w)) (λ _ g _. g ≡ missing)
        (λ code g v. LaunchEnds cfg wait code g v) (kill_and_clear_lem os pid f w)
        λ _ g _ e. inr (refl, missing-Unrecorded g e)

  after_health_lem :
      (cfg : String) (pid : ℤ) (healthy : Bool) (f : PidFile) (u u' w : S)
      → os.popen cfg u ≡ (ok pid, u')
      → f ≡ holding (decimal pid ∷ cfg ∷ [])
      → (healthy ≡ true → (x : S) × (health_ok os cfg x ≡ (ok true, w)))
      → After (after_health os pid healthy f w) (λ code g v. LaunchEnds cfg true code g v)
  unfolding after_health LaunchEnds Launched Healthy
  after_health_lem cfg pid true f u u' w spawned file seen =
      inl (refl, (pid, (u, u', spawned), file, seen refl))
  after_health_lem cfg pid false f u u' w spawned file seen = health_failed_lem cfg true pid f w

  written_state_lem :
      (cfg : String) (wait : Bool) (pid : ℤ) (f : PidFile) (u u' w : S)
      → os.popen cfg u ≡ (ok pid, u')
      → f ≡ holding (decimal pid ∷ cfg ∷ [])
      → After (written_state os cfg wait pid f w) (λ code g v. LaunchEnds cfg wait code g v)
  unfolding written_state LaunchEnds Launched Healthy
  written_state_lem cfg false pid f u u' w spawned file =
      inl (refl, (pid, (u, u', spawned), file, tt))
  written_state_lem cfg true pid f u u' w spawned file =
      After-followed_by (wait_health os cfg 45_000 f w) (after_health os pid)
        (λ healthy g v. (g ≡ f) × (healthy ≡ true → (x : S) × (health_ok os cfg x ≡ (ok true, v))))
        (λ code g v. LaunchEnds cfg true code g v) (wait_health_lem os cfg 45_000 f w)
        λ healthy g v (same, seen).
          after_health_lem cfg pid healthy g u u' v spawned (same ∙ file) seen

  polled_lem :
      (cfg : String) (wait : Bool) (pid : ℤ) (f : PidFile) (u u' : S) (a : Option ℤ × S)
      → os.popen cfg u ≡ (ok pid, u')
      → Unrecorded f
      → After (polled os cfg wait pid f a) (λ code g v. LaunchEnds cfg wait code g v)
  unfolding polled LaunchEnds
  polled_lem cfg wait pid f u u' (some _, w) spawned empty = inr (refl, empty)
  polled_lem cfg wait pid f u u' (none, w) spawned empty =
      After-followed_by (write_state os pid cfg f w) (λ _. written_state os cfg wait pid)
        (λ _ g _. g ≡ holding (decimal pid ∷ cfg ∷ [])) (λ code g v. LaunchEnds cfg wait code g v)
        (write_state_lem os pid cfg f w)
        λ _ g v file. written_state_lem cfg wait pid g u u' v spawned file

  launch_lem :
      (cfg : String) (wait : Bool) (f : PidFile) (w : S)
      → Unrecorded f
      → After (launch_server os cfg wait f w) (λ code g v. LaunchEnds cfg wait code g v)
  unfolding launch_server
  launch_lem cfg wait f w empty =
      After-followed_by (spawn os cfg f w)
        (λ pid f w. polled os cfg wait pid f (os.poll pid (os.sleep 400 w)))
        (λ pid g v. (g ≡ f) × ((u : S) × (os.popen cfg u ≡ (ok pid, v))))
        (λ code g v. LaunchEnds cfg wait code g v) (spawn_lem cfg f w)
        λ pid g v (same, (u, spawned)).
          polled_lem cfg wait pid g u v (os.poll pid (os.sleep 400 v)) spawned
            (ap (λ f. (read_state f).0) same ∙ empty)

  -- With a living process on record nothing is launched; else the launch says how it ended.
  unfoldable pub StartEnds : String → Bool → Recorded → PidFile → S → Run S ℕ → Type 0
  unfolding LaunchEnds
  StartEnds cfg wait (none, _) f w run = After run (λ code g v. LaunchEnds cfg wait code g v)
  StartEnds cfg wait (some pid, _) f w run =
      ((u : S) × (pid_alive os pid w ≡ (ok true, u)) × (run ≡ (done 1, f, u)))
      ⊎ (((pid_alive os pid w).0 ≢ ok true) × After run (λ code g v. LaunchEnds cfg wait code g v))

  refused_true : {x : Exception} → err x ≡ ok true → ⊥
  refused_true e = cc

  clash : ok false ≡ ok true → ⊥
  clash e = cc

  start_asked :
      (cfg : String) (wait : Bool) (pid : ℤ) (other : Option String) (f : PidFile) (w : S)
      (a : Result Bool × S)
      → pid_alive os pid w ≡ a
      → StartEnds cfg wait (some pid, other) f w (calling f a followed_by start_beside os cfg wait)
  unfolding StartEnds start_beside
  start_asked cfg wait pid other f w (err x, u) e =
      inr (λ same. refused_true (sym (ap (λ r. r.0) e) ∙ same), tt)
  start_asked cfg wait pid other f w (ok true, u) e = inl (u, e, refl)
  start_asked cfg wait pid other f w (ok false, u) e = inr (
    λ same. clash (sym (ap (λ r. r.0) e) ∙ same),
    After-followed_by (clear_state os f u) (λ _. launch_server os cfg wait) (λ _ g _. g ≡ missing)
        (λ code g v. LaunchEnds cfg wait code g v) (clear_state_lem os f u)
        λ _ g v gone. launch_lem cfg wait g v (missing-Unrecorded g gone),
  )

  start_recorded_lem :
      (cfg : String) (wait : Bool) (r : Recorded) (f : PidFile) (w : S)
      → (read_state f).0 ≡ r.0
      → StartEnds cfg wait r f w (start_recorded os cfg wait r f w)
  unfolding start_recorded StartEnds
  start_recorded_lem cfg wait (none, _) f w e = launch_lem cfg wait f w e
  start_recorded_lem cfg wait (some pid, other) f w e =
      start_asked cfg wait pid other f w (pid_alive os pid w) refl

  -- A start with a living process on record ends with 1, and does no more than ask for the process.
  -- Any other start that returns ends with 0 or 1: with 0 the file names the process that it
  -- launched and the configuration path, and, where waiting was asked for, `/health` passed last;
  -- with 1 the file records no process.
  pub start_ends :
      (cfg : Option String) (wait : Bool) (f : PidFile) (w : S)
      → StartEnds (text_or cfg (config_path os)) wait (read_state f) f w (start_at os cfg wait f w)
  unfolding start_at
  start_ends cfg wait f w =
      start_recorded_lem (text_or cfg (config_path os)) wait (read_state f) f w refl
