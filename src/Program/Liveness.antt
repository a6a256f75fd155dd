-- ===== src/Program/Liveness.antt =====
-- What the health service answers while the command runs, and after it.
use k8s_device_plugin.Prelude.{
  ℕ, List, true, false, Option, none, some, Option-cases, some-inj, ◌≡◌, refl, inl, inr, sym, ap,
  ◌∙◌, arith, if◌then◌else◌,
}
use k8s_device_plugin.Prelude.Texts.{Text, str}
use k8s_device_plugin.Go.Int.{ℤ, pos, negsuc}
use k8s_device_plugin.Go.Result.{Result, ok, Result-cases, ok-inj}
use k8s_device_plugin.Health.{
  HealthServer, set_serving, start_healthcheck, ServingStatus, serving, not_serving, CheckError,
  check,
}
use k8s_device_plugin.Cdi.{cleanup_transient_specs}
use k8s_device_plugin.Manager.Loop.{Manager, World, Event, RunError, reconcile_manager, run, serve}
use k8s_device_plugin.Manager.Loop.Ends.{run-health}
use k8s_device_plugin.Program.{System, Flags, ProgramError, new_manager, run_program}
use k8s_device_plugin.Program.Stopped.{
  run_program-IsStopped, run_program-made, run_manager-waits, run_manager-ends, left_by_run,
  run_ended,
}

-- What a request gets: none where no server runs any more.
abbrev pub Answer : Type 0
Answer = Option (Result CheckError ServingStatus)

abbrev pub ask : HealthServer → Text → Answer
ask h service = if h.running then some (check h service) else none

-- The answer that belongs to a first scan and to an exit. A scan of none has not ended; an exit of
-- none is that of a command that still runs.
abbrev pub liveness : Option World → Option (Result ProgramError (Unit {0})) → Answer
liveness first (some exit) = none
liveness none none = some (ok not_serving)
liveness (some w) none = some (ok serving)

ask-serving :
    (h : HealthServer)
    → (h.serving ≡ true) × (h.running ≡ true)
    → ask h (str "liveness") ≡ some (ok serving)
unfolding check
ask-serving h (serves, up) = ground (arith, serves, up)

ask-not_serving :
    (h : HealthServer)
    → (h.serving ≡ false) × (h.running ≡ true)
    → ask h (str "liveness") ≡ some (ok not_serving)
unfolding check
ask-not_serving h (down, up) = ground (arith, down, up)

ask-none : (h : HealthServer) → h.running ≡ false → ask h (str "liveness") ≡ none
ask-none h down = ground (arith, down)

start_healthcheck-fresh :
    (listen : ℕ → Result Text (Unit {0})) (port : ℤ) (h : HealthServer)
    → start_healthcheck listen port ≡ ok (some h)
    → (h.serving ≡ false) × (h.running ≡ true)
unfolding start_healthcheck
start_healthcheck-fresh listen (negsuc n) h e = absurd (ground (arith, ok-inj e))
start_healthcheck-fresh listen (pos port) h e = elim (Result-cases (listen port)) [
  | inr (failure, f) ↦ absurd (ground (arith, e, f))
  | inl (u, f) ↦ (ground (arith, e, f), ground (arith, e, f))
]

run-failed :
    (w : World) (watcher : Result Text (Unit {0})) (events : List Event) (m : Manager)
    (e : RunError)
    → (reconcile_manager w m).1 ≡ some e
    → ¬ ((run (some w) watcher events m).1 ≡ none)
unfolding run
run-failed w watcher events m e failed h = ground (arith, failed, h)

-- A manager that waits for events has been set to serve.
run-serves :
    (w : World) (watcher : Result Text (Unit {0})) (events : List Event) (m : Manager)
    → (run (some w) watcher events m).1 ≡ none
    → (run (some w) watcher events m).0.health ≡ (serve true m).health
run-serves w watcher events m h = elim (Option-cases (reconcile_manager w m).1) [
  | inl fine ↦ run-health w watcher events m ∙ rw fine refl
  | inr (e, failed) ↦ absurd (run-failed w watcher events m e failed h)
]

serve-serving :
    (m : Manager) (h : HealthServer)
    → ((g : HealthServer) → m.health ≡ some g → g.running ≡ true)
    → (serve true m).health ≡ some h
    → (h.serving ≡ true) × (h.running ≡ true)
unfolding set_serving
serve-serving m h runs e = elim (Option-cases m.health) [
  | inl absent ↦ absurd (ground (arith, absent, e))
  | inr (g, there) ↦ (ground (arith, there, e), ground (arith, there, e, runs g there))
]

module _ (sys : System) where
  new_manager-fresh :
      (flags : Flags) (m : Manager) (h : HealthServer)
      → new_manager sys flags ≡ ok m
      → m.health ≡ some h
      → (h.serving ≡ false) × (h.running ≡ true)
  unfolding new_manager
  new_manager-fresh flags m h made there =
      elim (Option-cases (cleanup_transient_specs flags.cdi_root sys.remove sys.specs).failure) [
        | inr (e, dirty) ↦ absurd (ground (arith, made, dirty))
        | inl clean ↦ elim (Result-cases (start_healthcheck sys.listen flags.healthcheck_port)) [
          | inr (e, refused) ↦ absurd (ground (arith, made, clean, refused))
          | inl (health, started) ↦
              let same : health ≡ some h = ground (arith, made, clean, started, there) in
              start_healthcheck-fresh sys.listen flags.healthcheck_port h (started ∙ ap ok same)
        ]
      ]

  left_by_run-liveness :
      (first : Option World) (m : Manager) (h : HealthServer)
      → ((g : HealthServer) → m.health ≡ some g → (g.serving ≡ false) × (g.running ≡ true))
      → (run first sys.watcher sys.events m).1 ≡ none
      → (run first sys.watcher sys.events m).0.health ≡ some h
      → ask h (str "liveness") ≡ liveness first none
  unfolding run
  left_by_run-liveness none m h fresh waits there = ask-not_serving h (fresh h there)
  left_by_run-liveness (some w) m h fresh waits there =
      let served = run-serves w sys.watcher sys.events m waits in
      ask-serving h (serve-serving m h (λ g e. (fresh g e).1) (sym served ∙ there))

  run_program-waits :
      (flags : Flags) (m : Manager)
      → (run_program sys flags).manager ≡ some m
      → (run_program sys flags).result ≡ none
      → (made : Manager) × (new_manager sys flags ≡ ok made)
        × (run_ended sys made ≡ none)
        × (left_by_run sys made ≡ m)
  run_program-waits flags m there waits = elim (run_program-made sys flags) [
    | inr (e, no_manager) ↦ absurd (ground (arith, there, ap (λ x. x.manager) no_manager))
    | inl (made, f, g, k, same) ↦ elim (Option-cases (run_ended sys made)) [
      | inl running ↦
          let now = same ∙ run_manager-waits sys made running in
          (made, k, running, some-inj (sym (ap (λ x. x.manager) now) ∙ there))
      | inr (e, over) ↦
          let now = same ∙ run_manager-ends sys made e over in
          absurd (ground (arith, waits, ap (λ x. x.result) now))
    ]
  ]

  -- The health service of a command that has made its manager answers that it does not serve where
  -- the command is in its first scan, that it serves where the command waits for events, and does
  -- not answer any more where the command has ended.
  pub run_program-liveness :
      (flags : Flags) (m : Manager) (h : HealthServer)
      → (run_program sys flags).manager ≡ some m
      → m.health ≡ some h
      → ask h (str "liveness") ≡ liveness sys.first (run_program sys flags).result
  run_program-liveness flags m h there has_health =
      elim (Option-cases (run_program sys flags).result) [
        | inr (exit, over) ↦
            let (made, k, stopped) = run_program-IsStopped sys flags m exit there over in
            rw over (ask-none h (stopped.health_down h has_health).1)
        | inl waits ↦
            let (made, k, running, same) = run_program-waits flags m there waits in
            rw waits (
              left_by_run-liveness sys.first made h (λ g e. new_manager-fresh flags made g k e)
                running (ap (λ n. n.health) same ∙ has_health))
      ]
