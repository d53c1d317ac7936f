-- ===== src/Orchestrator/Facade/Polling.antt =====
-- The timer of the poll of src/orchestrator/orchestrator.ts: what no order of its callbacks breaks.
use risoluto.Prelude.{
  ℕ, suc, ◌+◌, true, false, ◌||◌, ◌≡◌, refl, Option, none, some, is_some, if◌then◌else◌, arith,
}
use risoluto.Orchestrator.State.{LifecycleState, create_lifecycle_state}
use risoluto.Orchestrator.Facade.{
  Orchestrator, new_orchestrator, schedule_tick, start_begin, start_end, stop, fire, tick_end,
  handle_refresh_command,
}

-- The orchestrator with the number of calls of `start` that are still awaiting the recovery.
pub record Polling : Type 0 where
  pub orchestrator : Orchestrator
  pub starting : ℕ

-- What may happen next. Between the callbacks the state changes as it likes, but for its switch.
pub data Turn : Polling → Polling → Type 0 where
  start_called :
      (p : Polling)
      → Turn p (record {
        orchestrator = start_begin p.orchestrator;
        starting = if p.orchestrator.state.running then p.starting else p.starting + 1;
      })
  recovered :
      (p : Polling) (n : ℕ)
      → p.starting ≡ suc n
      → Turn p (record { orchestrator = start_end p.orchestrator; starting = n })
  stopped : (p : Polling) → Turn p (record p { orchestrator = stop p.orchestrator })
  refresh_requested :
      (p : Polling) → Turn p (record p { orchestrator = (handle_refresh_command p.orchestrator).0 })
  fired :
      (p : Polling)
      → Turn p (record p { orchestrator = fire p.orchestrator p.orchestrator.next_tick_timer })
  ticked :
      (p : Polling) (interval_ms : ℕ)
      → p.orchestrator.tick_in_flight ≡ true
      → Turn p (record p { orchestrator = tick_end p.orchestrator interval_ms })
  changed :
      (p : Polling) (s : LifecycleState)
      → s.running ≡ p.orchestrator.state.running
      → Turn p (record p { orchestrator = record p.orchestrator { state = s } })

pub data Polled : Polling → Type 0 where
  created : Polled (record { orchestrator = new_orchestrator; starting = 0 })
  turned : (p p' : Polling) → Polled p → Turn p p' → Polled p'

-- The invariant: a tick that runs has no timer beside it; an orchestrator that runs and has started
-- has a timer or a tick; a requested refresh does not wait; a stopped one has no timer.
pub record IsPolling (p : Polling) : Type 0 where
  pub one_tick : p.orchestrator.tick_in_flight ≡ true → p.orchestrator.next_tick_timer ≡ none
  pub alive :
      p.orchestrator.state.running ≡ true
      → p.starting ≡ 0
      → (p.orchestrator.tick_in_flight || is_some p.orchestrator.next_tick_timer) ≡ true
  pub soon :
      (delay_ms : ℕ)
      → p.orchestrator.refresh_queued ≡ true
      → p.orchestrator.next_tick_timer ≡ some delay_ms
      → delay_ms ≡ 0
  pub quiet : p.orchestrator.state.running ≡ false → p.orchestrator.next_tick_timer ≡ none

start-IsPolling :
    (p : Polling)
    → IsPolling p
    → IsPolling (record {
      orchestrator = start_begin p.orchestrator;
      starting = if p.orchestrator.state.running then p.starting else p.starting + 1;
    })
unfolding start_begin
start-IsPolling p h = record {
  one_tick = ground (arith, h.one_tick, h.quiet, h.alive);
  alive = ground (arith, h.one_tick, h.quiet, h.alive);
  soon = λ d. ground (arith, h.soon d);
  quiet = ground (arith, h.quiet);
}

recovered-IsPolling :
    (p : Polling) (n : ℕ)
    → p.starting ≡ suc n
    → IsPolling p
    → IsPolling (record { orchestrator = start_end p.orchestrator; starting = n })
unfolding start_end schedule_tick
recovered-IsPolling p n e h = record {
  one_tick = ground (arith, h.one_tick, h.quiet, h.alive);
  alive = ground (arith, h.one_tick, h.quiet, h.alive);
  soon = λ d. ground (arith, h.soon d);
  quiet = ground (arith, h.quiet);
}

stop-IsPolling :
    (p : Polling) → IsPolling p → IsPolling (record p { orchestrator = stop p.orchestrator })
unfolding stop
stop-IsPolling p h = record {
  one_tick = λ _. refl;
  alive = λ e k. ground arith;
  soon = λ d e k. ground arith;
  quiet = λ _. refl;
}

refresh-IsPolling :
    (p : Polling)
    → IsPolling p
    → IsPolling (record p { orchestrator = (handle_refresh_command p.orchestrator).0 })
unfolding handle_refresh_command schedule_tick
refresh-IsPolling p h = record {
  one_tick = ground (arith, h.one_tick, h.quiet, h.alive);
  alive = ground (arith, h.one_tick, h.quiet, h.alive);
  soon = λ d e k. ground (arith, h.soon d, h.one_tick, h.quiet);
  quiet = ground (arith, h.quiet);
}

fire-IsPolling :
    (p : Polling) (timer : Option ℕ)
    → p.orchestrator.next_tick_timer ≡ timer
    → IsPolling p
    → IsPolling (record p { orchestrator = fire p.orchestrator timer })
unfolding fire
fire-IsPolling p none e h = h
fire-IsPolling p (some d) e h = record {
  one_tick = ground (arith, h.one_tick, h.quiet, h.alive);
  alive = ground (arith, h.one_tick, h.quiet, h.alive);
  soon = λ d e k. ground (arith, h.soon d, h.one_tick, h.quiet);
  quiet = ground (arith, h.quiet);
}

tick-IsPolling :
    (p : Polling) (interval_ms : ℕ)
    → p.orchestrator.tick_in_flight ≡ true
    → IsPolling p
    → IsPolling (record p { orchestrator = tick_end p.orchestrator interval_ms })
unfolding tick_end schedule_tick
tick-IsPolling p interval_ms e h = record {
  one_tick = ground (arith, h.one_tick, h.quiet, h.alive);
  alive = ground (arith, h.one_tick, h.quiet, h.alive);
  soon = λ d e k. ground (arith, h.soon d, h.one_tick, h.quiet);
  quiet = ground (arith, h.quiet, h.one_tick);
}

changed-IsPolling :
    (p : Polling) (s : LifecycleState)
    → s.running ≡ p.orchestrator.state.running
    → IsPolling p
    → IsPolling (record p { orchestrator = record p.orchestrator { state = s } })
changed-IsPolling p s e h = record {
  one_tick = h.one_tick;
  alive = ground (arith, h.alive);
  soon = h.soon;
  quiet = ground (arith, h.quiet);
}

Turn-IsPolling : (p p' : Polling) → Turn p p' → IsPolling p → IsPolling p'
Turn-IsPolling _ _ (start_called p) h = start-IsPolling p h
Turn-IsPolling _ _ (recovered p n e) h = recovered-IsPolling p n e h
Turn-IsPolling _ _ (stopped p) h = stop-IsPolling p h
Turn-IsPolling _ _ (refresh_requested p) h = refresh-IsPolling p h
Turn-IsPolling _ _ (fired p) h = fire-IsPolling p p.orchestrator.next_tick_timer refl h
Turn-IsPolling _ _ (ticked p interval_ms e) h = tick-IsPolling p interval_ms e h
Turn-IsPolling _ _ (changed p s e) h = changed-IsPolling p s e h

-- Whatever the order of the callbacks, of `start`, `stop` and the requests for a refresh: while a tick
-- runs no timer is set, so no two ticks run at once; once it has started, an orchestrator that runs
-- has a tick or a timer, so polling never ends; a timer that is set while a refresh is queued has no
-- delay; an orchestrator that does not run has no timer.
pub Polled-IsPolling : (p : Polling) → Polled p → IsPolling p
unfolding create_lifecycle_state
Polled-IsPolling _ created = record {
  one_tick = λ e. refl;
  alive = λ e k. ground arith;
  soon = λ d e k. ground arith;
  quiet = λ e. refl;
}
Polled-IsPolling _ (turned p p' r t) = Turn-IsPolling p p' t (Polled-IsPolling p r)
