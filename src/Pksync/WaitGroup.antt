-- ===== src/Pksync/WaitGroup.antt =====
-- pksync/ctxWaitGroup.go. The group's listener and its callers run as one system of steps; a
-- `select` may take any case that is ready, so each ready case is a step of its own.
pub mod Safety
pub mod Counter
use g_rpeakec_go.Prelude.{
  ℕ, zero, ◌<◌, ◌≡◌, Bool, true, false, List, [], ◌∷◌, ◌++◌, update, if◌then◌else◌, length, ◌⊎◌,
}
use g_rpeakec_go.Prelude.Int.{ℤ, pos, negsuc, ◌+ℤ◌, wrap_int}

-- A waitEvent: the delta, and the caller that holds its Success channel.
pub record WaitEvent : Type 0 where
  pub delta : ℤ
  pub caller : ℕ

-- Where the goroutine of `listen` stands: in its select, sending on the Success channel of a
-- caller, past that send, or out of its loop.
pub data Listener : Type 0 where
  selecting : Listener
  answering : ℕ → Listener
  checking : Listener
  stopped : Listener

-- The three contexts are what their Done channels show. `events` is what the channel holds, and
-- `is_nil` says that the field has been set to nil.
pub record CtxWaitGroup : Type 0 where
  pub ctx_done : Bool
  pub closed_done : Bool
  pub panic_done : Bool
  pub events : List WaitEvent
  pub is_nil : Bool
  pub counter : ℤ
  pub listener : Listener

unfoldable pub new_ctx_wait_group : Bool → CtxWaitGroup
new_ctx_wait_group ctx_done = record {
  ctx_done = ctx_done;
  closed_done = false;
  panic_done = false;
  events = [];
  is_nil = false;
  counter = pos 0;
  listener = selecting;
}

-- The capacity of `events`.
abbrev pub queue_size : ℕ
queue_size = 16

abbrev pub is_negative : ℤ → Bool
is_negative (pos n) = false
is_negative (negsuc n) = true

abbrev pub is_zero : ℤ → Bool
is_zero (pos zero) = true
is_zero _ = false

-- handleEvent up to the send on Success: the counter, an int of 64 bits, is changed first.
unfoldable pub handle_event : CtxWaitGroup → WaitEvent → CtxWaitGroup
unfolding ◌+ℤ◌ wrap_int
handle_event group event =
    let counter = wrap_int (group.counter +ℤ event.delta) in
    if is_negative counter
    then record group { counter = counter; panic_done = true; listener = stopped }
    else record group { counter = counter; listener = answering event.caller }

-- The rest of handleEvent, behind the send on Success.
unfoldable pub answered : CtxWaitGroup → CtxWaitGroup
answered group =
    if is_zero group.counter
    then record group { closed_done = true; listener = stopped }
    else record group { listener = selecting }

-- What a call of Add or Done ends with: nil, one of the two errors, or a panic.
pub data Result : Type 0 where
  success wait_group_closed context_cancelled counter_panic : Result

-- A call of sendWaitEvent: before its first select; in it, with the channel that it has read from
-- the group, or with nil; in the second; or ended.
pub data Caller : Type 0 where
  calling : ℤ → Caller
  sending : ℤ → Caller
  without_channel : ℤ → Caller
  awaiting : Caller
  ended : Result → Caller

pub record System : Type 0 where
  pub group : CtxWaitGroup
  pub callers : ℕ → Caller

-- The cases of a caller's selects that need no listener.
pub data GivesUp (group : CtxWaitGroup) : Result → Type 0 where
  on_closed : group.closed_done ≡ true → GivesUp group wait_group_closed
  on_cancel : group.ctx_done ≡ true → GivesUp group context_cancelled
  on_panic : group.panic_done ≡ true → GivesUp group counter_panic

pub data InCall : Caller → Type 0 where
  is_sending : {delta : ℤ} → InCall (sending delta)
  is_without : {delta : ℤ} → InCall (without_channel delta)
  is_awaiting : InCall awaiting

pub data Step (s : System) : System → Type 0 where
  -- The owner of the context cancels it.
  cancel : Step s (record s { group = record s.group { ctx_done = true } })
  -- The first select reads `group.events` once.
  enter :
      (i : ℕ) (delta : ℤ)
      → s.callers i ≡ calling delta
      → Step s (record s {
        callers =
            update s.callers i (if s.group.is_nil then without_channel delta else sending delta);
      })
  -- A send to the channel, which has a buffer and may have lost its listener. A nil channel blocks
  -- for ever.
  enqueue :
      (i : ℕ) (delta : ℤ)
      → s.callers i ≡ sending delta
      → length s.group.events < queue_size
      → Step s (record {
        group = record s.group {
          events = s.group.events ++ (record { delta = delta; caller = i }) ∷ [];
        };
        callers = update s.callers i awaiting;
      })
  give_up :
      (i : ℕ) (r : Result)
      → InCall (s.callers i)
      → GivesUp s.group r
      → Step s (record s { callers = update s.callers i (ended r) })
  -- The listener's select.
  stop :
      s.group.listener ≡ selecting
      → s.group.ctx_done ≡ true
      → Step s (record s { group = record s.group { listener = stopped } })
  take :
      (event : WaitEvent) (rest : List WaitEvent)
      → s.group.listener ≡ selecting
      → s.group.events ≡ event ∷ rest
      → Step s (record s { group = handle_event (record s.group { events = rest }) event })
  -- The send on Success meets the caller's second select.
  answer :
      (i : ℕ)
      → s.group.listener ≡ answering i
      → s.callers i ≡ awaiting
      → Step s (record {
        group = record s.group { listener = checking };
        callers = update s.callers i (ended success);
      })
  -- The listener goes on behind the send, and closes the group at 0.
  check : s.group.listener ≡ checking → Step s (record s { group = answered s.group })
  -- The deferred function of `listen`.
  set_nil :
      s.group.listener ≡ stopped → Step s (record s { group = record s.group { is_nil = true } })

pub data Reach (s : System) : System → Type 0 where
  here : Reach s s
  next : {t u : System} → Reach s t → Step t u → Reach s u

-- What Wait may end with.
pub data WaitEnds (group : CtxWaitGroup) : Result → Type 0 where
  wait_closed : group.closed_done ≡ true → WaitEnds group success
  wait_cancelled : group.ctx_done ≡ true → WaitEnds group context_cancelled
  wait_panics : group.panic_done ≡ true → WaitEnds group counter_panic
