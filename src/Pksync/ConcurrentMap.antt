-- ===== src/Pksync/ConcurrentMap.antt =====
-- pksync/concurrentMap.go. The launching goroutine, a goroutine for each value and the receiver of
-- the error channel run as one system of steps. The channel has no buffer, so a send is one step
-- with its receive: the receiver is the one that the documentation asks for, which ranges over the
-- channel until it is closed. An index stands for the value at it.
pub mod Sound
pub mod Laws
pub mod Progress
pub mod Closes
use g_rpeakec_go.Prelude.{
  ℕ, suc, ◌<◌, ◌≤◌, ◌≡◌, Option, none, some, List, [], ◌∷◌, ◌++◌, update, ◌==◌, if◌then◌else◌,
}
use g_rpeakec_go.Errors.{Err, map_failed}
use g_rpeakec_go.Pkerr.Panic.{Outcome, catch_panic}

-- A goroutine of runSingleMap: not launched, in mapFunc, sending its error, or gone with the result
-- that CatchPanic gave.
pub data Worker : Type 0 where
  unlaunched running : Worker
  reporting : Err → Worker
  finished : Option Err → Worker

-- mapFuncToValues: at the head of its loop, sending the context's error, in mapComplete.Wait, or
-- past the close of the channel.
pub data Launcher : Type 0 where
  looping : Launcher
  stopping : Err → Launcher
  waiting closed : Launcher

-- What the receiver gets: the error of the context, or a ConcurrentMapError.
pub data Report : Type 0 where
  of_context : Err → Report
  of_value : Err → ℕ → Report

-- A report as an `error`.
abbrev pub report_err : Report → Err
report_err (of_context e) = e
report_err (of_value e i) = map_failed e i

-- `i` is the loop's variable; `ctx_err` is what ctx.Err() gives.
pub record MapState : Type 0 where
  pub i : ℕ
  pub launcher : Launcher
  pub workers : ℕ → Worker
  pub ctx_err : Option Err
  pub received : List Report

unfoldable pub start_map : Option Err → MapState
start_map ctx_err = record {
  i = 0;
  launcher = looping;
  workers = λ _. unlaunched;
  ctx_err = ctx_err;
  received = [];
}

-- The end of mapFunc, under CatchPanic.
unfoldable pub after_map_func : Option Err → Worker
after_map_func none = finished none
after_map_func (some err) = reporting err

-- `len` is values.Len(), and `ends j` is how mapFunc ends at `j`: it runs there once at most.
pub data Step (ends : ℕ → Outcome (Option Err)) (len : ℕ) (s : MapState) : MapState → Type 0 where
  cancel : (e : Err) → s.ctx_err ≡ none → Step ends len s (record s { ctx_err = some e })
  -- The loop's body, without and with an error of the context.
  launch :
      s.launcher ≡ looping
      → s.i < len
      → s.ctx_err ≡ none
      → Step ends len s (record s { i = suc s.i; workers = update s.workers s.i running })
  break_loop :
      (e : Err)
      → s.launcher ≡ looping
      → s.i < len
      → s.ctx_err ≡ some e
      → Step ends len s (record s { launcher = stopping e })
  receive_context :
      (e : Err)
      → s.launcher ≡ stopping e
      → Step ends len s
          (record s { launcher = waiting; received = s.received ++ of_context e ∷ [] })
  end_loop : s.launcher ≡ looping → len ≤ s.i → Step ends len s (record s { launcher = waiting })
  -- Wait returns when each launched goroutine has called Done.
  close :
      s.launcher ≡ waiting
      → ((j : ℕ) → j < s.i → (r : Option Err) × (s.workers j ≡ finished r))
      → Step ends len s (record s { launcher = closed })
  -- mapFunc at `j` returns or panics.
  return_or_panic :
      (j : ℕ)
      → s.workers j ≡ running
      → Step ends len s
          (record s { workers = update s.workers j (after_map_func (catch_panic (ends j))) })
  receive_value :
      (j : ℕ) (e : Err)
      → s.workers j ≡ reporting e
      → Step ends len s (record s {
        workers = update s.workers j (finished (some e));
        received = s.received ++ of_value e j ∷ [];
      })

pub data Reach (ends : ℕ → Outcome (Option Err)) (len : ℕ) (s : MapState) : MapState → Type 0 where
  here : Reach ends len s s
  next : {t u : MapState} → Reach ends len s t → Step ends len t u → Reach ends len s u

-- The errors that have been received for the value at `j`, and the context's.
abbrev pub value_errs : ℕ → List Report → List Err
value_errs j [] = []
value_errs j (of_context e ∷ rs) = value_errs j rs
value_errs j (of_value e k ∷ rs) = let rest = value_errs j rs in if k == j then e ∷ rest else rest

abbrev pub context_errs : List Report → List Err
context_errs [] = []
context_errs (of_context e ∷ rs) = e ∷ context_errs rs
context_errs (of_value e k ∷ rs) = context_errs rs
