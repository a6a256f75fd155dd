-- ===== src/Manager/Loop/Ends.antt =====
-- What ends the loop of the manager, and what holds while it runs.
use k8s_device_plugin.Prelude.{
  some-inj, true, Bool-cases, Option-cases, List, [], ◌∷◌, ◌++◌, none, some, ◌≡◌, ◌↔◌, refl, sym,
  ap, subst, ◌∙◌, inl, inr, arith,
}
use k8s_device_plugin.Prelude.Texts.{Text, text_eq}
use k8s_device_plugin.Prelude.Dict.{lookup}
use k8s_device_plugin.Go.Result.{Result}
use k8s_device_plugin.Inventory.{discover_device_groups}
use k8s_device_plugin.Manager.Reconciled.{served, found, reconcile-served, reconcile-none}
use k8s_device_plugin.Manager.Loop.{
  Manager, World, Event, done, tick, watched, watch_failed, watcher_closed, WatchEvent, RunError,
  cancelled, watcher_gone, is_kubelet_restart_event, reconcile_manager, restart, handle, run_loop,
  serve, run,
}

-- The events that can end the loop: the end of the program, the loss of the watcher, and a new
-- socket of the kubelet, where the restart fails. No scan and no other error of the watcher does.
pub data IsFatal (m : Manager) : Event → RunError → Type 0 where
  ended : IsFatal m done cancelled
  lost : IsFatal m watcher_closed watcher_gone
  not_restarted :
      {event : WatchEvent} {w : World} {e : RunError}
      → is_kubelet_restart_event m.kubelet_socket event ≡ true
      → (restart w m).1 ≡ some e
      → IsFatal m (watched event w) e

handle-IsFatal :
    (event : Event) (m : Manager) (e : RunError) → (handle event m).1 ≡ some e → IsFatal m event e
unfolding handle
handle-IsFatal done m e h = subst (IsFatal m done) (some-inj h) ended
handle-IsFatal (tick w) m e h = absurd cc
handle-IsFatal (watched event w) m e h =
    elim (Bool-cases (is_kubelet_restart_event m.kubelet_socket event)) [
      | inl created ↦ not_restarted created (ground (arith, created, h))
      | inr other ↦ absurd (ground (arith, other, h))
    ]
handle-IsFatal (watch_failed t) m e h = absurd cc
handle-IsFatal watcher_closed m e h = subst (IsFatal m watcher_closed) (some-inj h) lost

IsFatal-handle :
    (event : Event) (m : Manager) (e : RunError) → IsFatal m event e → (handle event m).1 ≡ some e
unfolding handle
IsFatal-handle event m e ended = refl
IsFatal-handle event m e lost = refl
IsFatal-handle event m e (not_restarted created failed) = ground (arith, created, failed)

-- The events that a manager gets through, none of which is fatal, and the manager after them.
pub data Passes : List Event → (m last : Manager) → Type 0 where
  no_event : {m : Manager} → Passes [] m m
  passed :
      {event : Event} {events : List Event} {m last : Manager}
      → ((e : RunError) → ¬ IsFatal m event e)
      → Passes events (handle event m).0 last
      → Passes (event ∷ events) m last

-- Where a loop ends: the events before, none of which is fatal, the first fatal event, and the
-- manager then.
pub record IsEnd (events : List Event) (m last : Manager) (e : RunError) : Type 0 where
  pub before : List Event
  pub event : Event
  pub rest : List Event
  pub split : events ≡ before ++ event ∷ rest
  pub then_ : Manager
  pub passes : Passes before m then_
  pub fatal : IsFatal then_ event e
  pub ends : (handle event then_).0 ≡ last

run_loop-next :
    (event : Event) (events : List Event) (m : Manager)
    → (handle event m).1 ≡ none
    → run_loop (event ∷ events) m ≡ run_loop events (handle event m).0
unfolding run_loop
run_loop-next event events m h = ground (arith, h)

run_loop-last :
    (event : Event) (events : List Event) (m : Manager) (e : RunError)
    → (handle event m).1 ≡ some e
    → run_loop (event ∷ events) m ≡ handle event m
unfolding run_loop
run_loop-last event events m e h = ground (arith, h)

not-IsFatal :
    (event : Event) (m : Manager) → (handle event m).1 ≡ none → (e : RunError) → ¬ IsFatal m event e
not-IsFatal event m h e fatal = absurd (ground (arith, h, IsFatal-handle event m e fatal))

run_loop-IsEnd :
    (events : List Event) (m last : Manager) (e : RunError)
    → run_loop events m ≡ (last, some e)
    → IsEnd events m last e
unfolding run_loop
run_loop-IsEnd [] m last e h = absurd (ground (arith, ap (λ r. r.1) h))
run_loop-IsEnd (event ∷ events) m last e h = elim (Option-cases (handle event m).1) [
  | inl none_yet ↦
      let next = run_loop-next event events m none_yet in
      let v = run_loop-IsEnd events (handle event m).0 last e (sym next ∙ h) in
      record {
        before = event ∷ v.before;
        event = v.event;
        rest = v.rest;
        split = ap (◌∷◌ event) v.split;
        then_ = v.then_;
        passes = passed (not-IsFatal event m none_yet) v.passes;
        fatal = v.fatal;
        ends = v.ends;
      }
  | inr (e', now) ↦
      let over = sym (run_loop-last event events m e' now) ∙ h in
      record {
        before = [];
        event = event;
        rest = events;
        split = refl;
        then_ = m;
        passes = no_event;
        fatal = handle-IsFatal event m e (ap (λ r. r.1) over);
        ends = ap (λ r. r.0) over;
      }
]

Passes-run_loop :
    {before : List Event} {m then_ : Manager} (event : Event) (rest : List Event) (e : RunError)
    → Passes before m then_
    → IsFatal then_ event e
    → run_loop (before ++ event ∷ rest) m ≡ ((handle event then_).0, some e)
Passes-run_loop {m = m} event rest e no_event fatal =
    let h = IsFatal-handle event m e fatal in
    run_loop-last event rest m e h ∙ ap (λ o. ((handle event m).0, o)) h
Passes-run_loop {m = m} event rest e (passed {event = first} {events = before} harmless passes)
      fatal =
    elim (Option-cases (handle first m).1) [
      | inl none_yet ↦
          run_loop-next first (before ++ event ∷ rest) m none_yet
          ∙ Passes-run_loop event rest e passes fatal
      | inr (e', now) ↦ absurd (harmless e' (handle-IsFatal first m e' now))
    ]

-- The loop ends exactly at the first event that is fatal, if there is one, and the manager is what
-- that event left.
pub run_loop_iff :
    (events : List Event) (m last : Manager) (e : RunError)
    → (run_loop events m ≡ (last, some e)) ↔ IsEnd events m last e
run_loop_iff events m last e = (
  run_loop-IsEnd events m last e,
  λ v.
      ap (λ es. run_loop es m) v.split
      ∙ Passes-run_loop v.event v.rest e v.passes v.fatal
      ∙ ap (λ n. (n, some e)) v.ends,
)

handle-health : (event : Event) (m : Manager) → (handle event m).0.health ≡ m.health
unfolding handle restart reconcile_manager
handle-health done m = refl
handle-health (tick w) m = refl
handle-health (watched event w) m = ground arith
handle-health (watch_failed t) m = refl
handle-health watcher_closed m = refl

run_loop-health : (events : List Event) (m : Manager) → (run_loop events m).0.health ≡ m.health
unfolding run_loop
run_loop-health [] m = refl
run_loop-health (event ∷ events) m =
    ground (arith, handle-health event m, run_loop-health events (handle event m).0)

-- The health service reports the manager as serving once its first scan has succeeded, and no event
-- changes that.
pub run-health :
    (w : World) (watcher : Result Text (Unit {0})) (events : List Event) (m : Manager)
    → (run (some w) watcher events m).0.health
      ≡ elim (reconcile_manager w m).1 [ none ↦ (serve true m).health | some e ↦ m.health ]
unfolding run reconcile_manager
run-health w watcher events m =
    ground (arith, run_loop-health events (serve true (reconcile_manager w m).0))

run_loop-snoc :
    (events : List Event) (event : Event) (m : Manager)
    → (run_loop events m).1 ≡ none
    → (run_loop (events ++ event ∷ []) m).0 ≡ (handle event (run_loop events m).0).0
unfolding run_loop
run_loop-snoc [] event m h = ground arith
run_loop-snoc (first ∷ events) event m h =
    ground (arith, h, run_loop-snoc events event (handle first m).0)

-- Whatever the manager went through before: a scan in which every plugin starts and stops leaves
-- it with a plugin for each resource that the scan found, which manages the devices of the scan.
pub run_loop-served :
    (events : List Event) (w : World) (m : Manager) (resource : Text)
    → ((name : Text) → w.servers.starts name ≡ true)
    → ((name : Text) → w.servers.stops name ≡ true)
    → (run_loop events m).1 ≡ none
    → served (lookup resource (run_loop (events ++ tick w ∷ []) m).0.plugins)
      ≡ found (lookup resource (discover_device_groups w.host w.found))
unfolding handle reconcile_manager
run_loop-served events w m resource starts stops running =
    let before = (run_loop events m).0 in
    ap (λ n. served (lookup resource n.plugins)) (run_loop-snoc events (tick w) m running)
    ∙ reconcile-served w.servers resource w.host w.found before.plugins
        (reconcile-none w.servers starts stops w.host w.found before.plugins)
