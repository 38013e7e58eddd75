-- ===== src/Pksync/Tests.antt =====
-- The theorems on CtxWaitGroup along concrete runs.
pub mod Mapping
use g_rpeakec_go.Prelude.{
  ℕ, ◌≡◌, ◌≢◌, refl, ◌==◌, if◌then◌else◌, inl, inr, true, false, [], ◌∷◌, update, arith,
}
use g_rpeakec_go.Prelude.Int.{pos, ◌+ℤ◌, wrap_int}
use g_rpeakec_go.Pksync.WaitGroup.{
  WaitEvent, new_ctx_wait_group, answering, stopped, is_zero, handle_event, answered, success,
  context_cancelled, calling, enter, check, wait_group_closed, Caller, sending, awaiting, ended,
  System, on_closed, on_cancel, is_sending, is_awaiting, cancel, enqueue, give_up, take, answer,
  Reach, here, next,
}
use g_rpeakec_go.Pksync.WaitGroup.Safety.{
  IsSound, closed_not_panicked, closed_rejects, listener_leaks,
}
use g_rpeakec_go.Pksync.WaitGroup.Counter.{sum, queued, deltas_sent, Reach-counter}

-- Caller 0 adds 0, which closes the group; caller 1 is late.
abbrev callers : ℕ → Caller
callers i = if i == 0 then calling (pos 0) else calling (pos 1)

abbrev fresh : System
fresh = record { group = new_ctx_wait_group false; callers = callers }

abbrev event : WaitEvent
event = record { delta = pos 0; caller = 0 }

abbrev entered : System
entered = record fresh { callers = update callers 0 (sending (pos 0)) }

abbrev sent : System
sent = record {
  group = record fresh.group { events = event ∷ [] };
  callers = update entered.callers 0 awaiting;
}

abbrev taken : System
taken = record sent { group = record fresh.group { listener = answering 0 } }

abbrev closed : System
closed = record {
  group = record fresh.group { closed_done = true; listener = stopped };
  callers = update taken.callers 0 (ended success);
}

to_taken : Reach fresh taken
unfolding new_ctx_wait_group handle_event wrap_int ◌+ℤ◌
to_taken =
    next (next (next here (enter 0 (pos 0) refl)) (enqueue 0 (pos 0) refl (omega arith)))
      (take event [] refl refl)

to_closed : Reach fresh closed
unfolding new_ctx_wait_group answered
to_closed = next (next to_taken (answer 0 refl refl)) (check refl)

closed_not_panicked_example :
    (closed.group.panic_done ≡ false)
    × (is_zero closed.group.counter ≡ true)
    × (closed.group.listener ≡ stopped)
closed_not_panicked_example = closed_not_panicked false refl to_closed refl

closed-IsSound : IsSound closed.group
unfolding new_ctx_wait_group
closed-IsSound = record {
  negative = refl;
  zero_closed = λ _. refl;
  closed_stopped = λ _. refl;
  panic_stopped = λ e. cc;
}

abbrev refused : System
refused = record closed {
  callers = update (update closed.callers 1 (sending (pos 1))) 1 (ended wait_group_closed);
}

to_refused : Reach closed refused
unfolding new_ctx_wait_group
to_refused =
    next (next here (enter 1 (pos 1) refl))
      (give_up 1 wait_group_closed is_sending (on_closed refl))

-- Caller 1 adds 1 while the listener answers caller 0.
abbrev adding : System
adding = record {
  group = record taken.group { events = (record { delta = pos 1; caller = 1 }) ∷ [] };
  callers = update (update taken.callers 1 (sending (pos 1))) 1 awaiting;
}

to_adding : Reach fresh adding
unfolding new_ctx_wait_group
to_adding = next (next to_taken (enter 1 (pos 1) refl)) (enqueue 1 (pos 1) refl (omega arith))

Reach-counter_example :
    wrap_int (adding.group.counter +ℤ sum (queued adding.group))
    ≡ wrap_int (sum (deltas_sent to_adding))
Reach-counter_example = Reach-counter false to_adding refl

-- The context ends while the listener answers caller 0, and the caller leaves.
abbrev stuck : System
stuck = record {
  group = record fresh.group { ctx_done = true; listener = answering 0 };
  callers = update taken.callers 0 (ended context_cancelled);
}

to_stuck : Reach fresh stuck
unfolding new_ctx_wait_group
to_stuck = next (next to_taken cancel) (give_up 0 context_cancelled is_awaiting (on_cancel refl))

stuck-IsSound : IsSound stuck.group
unfolding new_ctx_wait_group
stuck-IsSound = record {
  negative = refl;
  zero_closed = λ e. cc;
  closed_stopped = λ e. cc;
  panic_stopped = λ e. cc;
}

abbrev later : System
later = record stuck {
  callers = update (update stuck.callers 1 (sending (pos 1))) 1 (ended context_cancelled);
}

to_later : Reach stuck later
unfolding new_ctx_wait_group
to_later =
    next (next here (enter 1 (pos 1) refl))
      (give_up 1 context_cancelled is_sending (on_cancel refl))

listener_leaks_example : (later.group.listener ≡ answering 0) × (later.group.closed_done ≡ false)
listener_leaks_example = listener_leaks 0 context_cancelled stuck-IsSound refl refl to_later
