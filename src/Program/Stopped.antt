-- ===== src/Program/Stopped.antt =====
-- How the command ends.
use k8s_device_plugin.Prelude.{
  Bool, some-inj, [], ◌∷◌, map, Option, none, some, Option-cases, Bool-cases, true, false, ◌≡◌, ◌⊎◌,
  ◌↔◌, refl, inl, inr, sym, ap, ◌∙◌, arith,
}
use k8s_device_plugin.Prelude.Texts.{Text}
use k8s_device_plugin.Prelude.Dict.{keys}
use k8s_device_plugin.Go.Result.{Result, ok, Result-cases}
use k8s_device_plugin.Go.Host.{FileError}
use k8s_device_plugin.Health.{HealthServer}
use k8s_device_plugin.Manager.{Servers, Plugins, ManagerError}
use k8s_device_plugin.Manager.Loop.{
  Manager, RunError, cancelled, watcher_gone, scan_failed, cleanup_failed, no_watcher, run, stop,
  stop_each,
}
use k8s_device_plugin.Program.{
  System, Flags, Exit, ProgramError, no_directory, new_manager, is_canceled, exit_of, run_manager,
  run_program, refused,
}

stop_each-names :
    (servers : Servers) (plugins : Plugins)
    → map (λ c. c.resource_name) (stop_each servers plugins) ≡ keys plugins
unfolding stop_each
stop_each-names servers [] = refl
stop_each-names servers ((name, p) ∷ plugins) = ap (◌∷◌ name) (stop_each-names servers plugins)

-- Every plugin that was left has been stopped, no plugin is left, and the health service, where
-- there is one, is down.
pub record IsStopped (left : Manager) (exit : Exit) (m : Manager) : Type 0 where
  pub all_stopped : map (λ c. c.resource_name) exit.stopped ≡ keys left.plugins
  pub no_plugins : m.plugins ≡ []
  pub health_down :
      (h : HealthServer) → m.health ≡ some h → (h.serving ≡ false) × (h.running ≡ false)

-- The errors of `Run` that are a cancelled context, or wrap one.
pub data IsCanceled (wraps : RunError → Bool) : RunError → Type 0 where
  context_done : IsCanceled wraps cancelled
  scan : {e : ManagerError} → wraps (scan_failed e) ≡ true → IsCanceled wraps (scan_failed e)
  cleanup : {e : FileError} → wraps (cleanup_failed e) ≡ true → IsCanceled wraps (cleanup_failed e)
  watcher : {e : Text} → wraps (no_watcher e) ≡ true → IsCanceled wraps (no_watcher e)

is_canceled-IsCanceled :
    (wraps : RunError → Bool) (e : RunError) → is_canceled wraps e ≡ true → IsCanceled wraps e
unfolding is_canceled
is_canceled-IsCanceled wraps cancelled h = context_done
is_canceled-IsCanceled wraps watcher_gone h = absurd cc
is_canceled-IsCanceled wraps (scan_failed e) h = scan h
is_canceled-IsCanceled wraps (cleanup_failed e) h = cleanup h
is_canceled-IsCanceled wraps (no_watcher e) h = watcher h

IsCanceled-is_canceled :
    {wraps : RunError → Bool} {e : RunError} → IsCanceled wraps e → is_canceled wraps e ≡ true
unfolding is_canceled
IsCanceled-is_canceled context_done = refl
IsCanceled-is_canceled (scan h) = h
IsCanceled-is_canceled (cleanup h) = h
IsCanceled-is_canceled (watcher h) = h

module _ (sys : System) where
  -- What `Run` of the manager has left, and why it returned.
  abbrev pub left_by_run : Manager → Manager
  left_by_run m = (run sys.first sys.watcher sys.events m).0

  abbrev pub run_ended : Manager → Option RunError
  run_ended m = (run sys.first sys.watcher sys.events m).1

  pub run_manager-waits :
      (m : Manager)
      → run_ended m ≡ none
      → run_manager sys m ≡ record { manager = some (left_by_run m); stopped = []; result = none }
  unfolding run_manager
  run_manager-waits m h = rw (h, run_manager) refl

  pub run_manager-ends :
      (m : Manager) (e : RunError)
      → run_ended m ≡ some e
      → run_manager sys m ≡ record {
        manager = some (stop sys.last (left_by_run m)).0;
        stopped = (stop sys.last (left_by_run m)).1;
        result = some (exit_of sys e);
      }
  unfolding run_manager
  run_manager-ends m e h = rw (h, run_manager) refl

  -- Where `Run` got past the directories.
  pub run_program-made :
      (flags : Flags)
      → ((m : Manager) × (sys.make_dir flags.kubelet_device_plugin_path ≡ ok tt)
          × (sys.make_dir flags.cdi_root ≡ ok tt)
          × (new_manager sys flags ≡ ok m)
          × (run_program sys flags ≡ run_manager sys m))
        ⊎ ((e : ProgramError) × (run_program sys flags ≡ refused e))
  unfolding run_program
  run_program-made flags = elim (Result-cases (sys.make_dir flags.kubelet_device_plugin_path)) [
    | inr (e, f) ↦ inr (no_directory e, rw (f, run_program) refl)
    | inl (u, f) ↦ elim (Result-cases (sys.make_dir flags.cdi_root)) [
      | inr (e, g) ↦ inr (no_directory e, rw (f, run_program, g) refl)
      | inl (v, g) ↦ elim (Result-cases (new_manager sys flags)) [
        | inr (e, k) ↦ inr (e, rw (f, run_program, g, k) refl)
        | inl (m, k) ↦ inl (m, f, g, k, rw (f, run_program, g, k) refl)
      ]
    ]
  ]

  result-run_ended :
      (m : Manager) (exit : Result ProgramError (Unit {0}))
      → (run_manager sys m).result ≡ some exit
      → (e : RunError) × (run_ended m ≡ some e) × (exit_of sys e ≡ exit)
  result-run_ended m exit h = elim (Option-cases (run_ended m)) [
    | inl waits ↦ absurd (ground (arith, h, ap (λ x. x.result) (run_manager-waits m waits)))
    | inr (e, over) ↦ (e, over, some-inj (sym (ap (λ x. x.result) (run_manager-ends m e over)) ∙ h))
  ]

  stop-IsStopped :
      (left m : Manager) (exit : Exit)
      → exit.manager ≡ some (stop sys.last left).0
      → exit.stopped ≡ (stop sys.last left).1
      → exit.manager ≡ some m
      → IsStopped left exit m
  unfolding stop
  stop-IsStopped left m exit made stopped same =
      let h : (stop sys.last left).0 ≡ m = some-inj (sym made ∙ same) in
      record {
        all_stopped =
            ap (map (λ c. c.resource_name)) stopped ∙ stop_each-names sys.last left.plugins;
        no_plugins = sym (ap (λ n. n.plugins) h);
        health_down = λ server e.
            (ground (arith, e, ap (λ n. n.health) h), ground (arith, e, ap (λ n. n.health) h));
      }

  -- Whenever the command ends and has made a manager, every plugin that `Run` of the manager has
  -- left has been stopped, the manager has no plugin any more, and its health service, where there
  -- is one, is down.
  pub run_program-IsStopped :
      (flags : Flags) (m : Manager) (exit : Result ProgramError (Unit {0}))
      → (run_program sys flags).manager ≡ some m
      → (run_program sys flags).result ≡ some exit
      → (made : Manager) × (new_manager sys flags ≡ ok made)
        × IsStopped (left_by_run made) (run_program sys flags) m
  run_program-IsStopped flags m exit there over = elim (run_program-made flags) [
    | inr (e, no_manager) ↦ absurd (ground (arith, there, ap (λ x. x.manager) no_manager))
    | inl (made, f, g, k, same) ↦
        let (e, ended, why) = result-run_ended made exit (sym (ap (λ x. x.result) same) ∙ over) in
        let ends = same ∙ run_manager-ends made e ended in
        (
          made,
          k,
          stop-IsStopped (left_by_run made) m (run_program sys flags) (ap (λ x. x.manager) ends)
              (ap (λ x. x.stopped) ends) there,
        )
  ]

  -- A command that has got to a manager, whose `Run` has returned a cancelled context or an error
  -- that wraps one.
  pub record IsCanceledRun (flags : Flags) : Type 0 where
    pub plugin_dir : sys.make_dir flags.kubelet_device_plugin_path ≡ ok tt
    pub cdi_dir : sys.make_dir flags.cdi_root ≡ ok tt
    pub manager : Manager
    pub made : new_manager sys flags ≡ ok manager
    pub error : RunError
    pub ended : run_ended manager ≡ some error
    pub canceled : IsCanceled sys.wraps_canceled error

  exit_of-IsCanceled : (e : RunError) → exit_of sys e ≡ ok tt → IsCanceled sys.wraps_canceled e
  unfolding exit_of
  exit_of-IsCanceled e h = elim (Bool-cases (is_canceled sys.wraps_canceled e)) [
    | inl canceled ↦ is_canceled-IsCanceled sys.wraps_canceled e canceled
    | inr other ↦ absurd (ground (arith, h, other))
  ]

  IsCanceled-exit_of : (e : RunError) → IsCanceled sys.wraps_canceled e → exit_of sys e ≡ ok tt
  unfolding exit_of
  IsCanceled-exit_of e canceled = rw (IsCanceled-is_canceled canceled) refl

  run_program-IsCanceledRun :
      (flags : Flags) → (run_program sys flags).result ≡ some (ok tt) → IsCanceledRun flags
  run_program-IsCanceledRun flags h = elim (run_program-made flags) [
    | inr (e, no_manager) ↦ absurd (ground (arith, h, ap (λ x. x.result) no_manager))
    | inl (m, f, g, k, same) ↦
        let (e, ended, why) = result-run_ended m (ok tt) (sym (ap (λ x. x.result) same) ∙ h) in
        record {
          plugin_dir = f;
          cdi_dir = g;
          manager = m;
          made = k;
          error = e;
          ended = ended;
          canceled = exit_of-IsCanceled e why;
        }
  ]

  IsCanceledRun-run_program :
      (flags : Flags) → IsCanceledRun flags → (run_program sys flags).result ≡ some (ok tt)
  unfolding run_program
  IsCanceledRun-run_program flags v =
      let same : run_program sys flags ≡ run_manager sys v.manager =
        rw (v.plugin_dir, run_program, v.cdi_dir, v.made) refl in
      ap (λ x. x.result) (same ∙ run_manager-ends v.manager v.error v.ended)
      ∙ ap some (IsCanceled-exit_of v.error v.canceled)

  -- The command ends well exactly where its directories and its manager were made, and `Run` of the
  -- manager has returned a cancelled context or an error that wraps one.
  pub run_program_iff :
      (flags : Flags) → ((run_program sys flags).result ≡ some (ok tt)) ↔ IsCanceledRun flags
  run_program_iff flags = (run_program-IsCanceledRun flags, IsCanceledRun-run_program flags)
