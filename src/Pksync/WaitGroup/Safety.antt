-- ===== src/Pksync/WaitGroup/Safety.antt =====
-- What holds of a group and its callers under every schedule.
use g_rpeakec_go.Prelude.{
  Bool-cases, ℕ, ◌≡◌, ◌≢◌, refl, ap, sym, ◌∙◌, inl, inr, Bool, true, false, update, arith,
}
use g_rpeakec_go.Prelude.Int.{ℤ, pos, negsuc}
use g_rpeakec_go.Pksync.WaitGroup.{
  CtxWaitGroup, new_ctx_wait_group, answering, stopped, is_negative, is_zero, handle_event,
  answered, Result, success, Caller, ended, System, on_closed, on_cancel, on_panic, InCall, Step,
  cancel, enqueue, give_up, is_sending, is_awaiting, is_without, stop, take, answer, enter, check,
  set_nil, Reach, here, next,
}

-- The counter is negative exactly after a panic, zero once closed, and a group that is closed or
-- has panicked has lost its listener.
pub record IsSound (g : CtxWaitGroup) : Type 0 where
  pub negative : is_negative g.counter ≡ g.panic_done
  pub zero_closed : g.closed_done ≡ true → is_zero g.counter ≡ true
  pub closed_stopped : g.closed_done ≡ true → g.listener ≡ stopped
  pub panic_stopped : g.panic_done ≡ true → g.listener ≡ stopped

pub new_ctx_wait_group-IsSound : (done : Bool) → IsSound (new_ctx_wait_group done)
unfolding new_ctx_wait_group
new_ctx_wait_group-IsSound done = ground arith

pub Step-IsSound : {s t : System} → Step s t → IsSound s.group → IsSound t.group
unfolding handle_event answered
Step-IsSound cancel v = ground arith
Step-IsSound (enqueue i delta e room) v = ground arith
Step-IsSound (give_up i r c g) v = v
Step-IsSound (stop e d) v = ground arith
Step-IsSound (take event rest e q) v = ground arith
Step-IsSound (answer i e a) v = ground arith
Step-IsSound (enter i delta e) v = v
Step-IsSound (check e) v = ground arith
Step-IsSound (set_nil e) v = ground arith

pub Reach-IsSound : {s t : System} → IsSound s.group → Reach s t → IsSound t.group
Reach-IsSound v here = v
Reach-IsSound v (next r st) = Step-IsSound st (Reach-IsSound v r)

zero-not_negative : (c : ℤ) → is_zero c ≡ true → is_negative c ≡ false
zero-not_negative (pos n) h = refl
zero-not_negative (negsuc n) h = cc

Step-closed :
    {s t : System}
    → Step s t
    → IsSound s.group
    → s.group.closed_done ≡ true
    → t.group.closed_done ≡ true
unfolding handle_event answered
Step-closed cancel v c = c
Step-closed (enqueue i delta e room) v c = c
Step-closed (give_up i r in_call g) v c = c
Step-closed (stop e d) v c = c
Step-closed (take event rest e q) v c = cc (v.closed_stopped c)
Step-closed (answer i e a) v c = cc (v.closed_stopped c)
Step-closed (enter i delta e) v c = c
Step-closed (check e) v c = cc (v.closed_stopped c)
Step-closed (set_nil e) v c = c

Step-not_success :
    (i : ℕ) {s t : System}
    → Step s t
    → IsSound s.group
    → s.group.closed_done ≡ true
    → s.callers i ≢ ended success
    → t.callers i ≢ ended success
Step-not_success i cancel v c n = n
Step-not_success i (enqueue j delta e room) v c n = ground arith
Step-not_success i (give_up j r in_call (on_closed _)) v c n = ground arith
Step-not_success i (give_up j r in_call (on_cancel _)) v c n = ground arith
Step-not_success i (give_up j r in_call (on_panic _)) v c n = ground arith
Step-not_success i (stop e d) v c n = n
Step-not_success i (take event rest e q) v c n = n
Step-not_success i (answer j e a) v c n = cc (v.closed_stopped c)
Step-not_success i (enter j delta e) v c n = ground arith
Step-not_success i (check e) v c n = n
Step-not_success i (set_nil e) v c n = n

-- From a new group, whatever the callers do and in whatever order: a group that is closed has not
-- panicked, its counter is 0 and its listener is gone. So Wait never has both nil and a panic to
-- choose from.
pub closed_not_panicked :
    {s t : System} (done : Bool)
    → s.group ≡ new_ctx_wait_group done
    → Reach s t
    → t.group.closed_done ≡ true
    → (t.group.panic_done ≡ false) × (is_zero t.group.counter ≡ true) × (t.group.listener ≡ stopped)
closed_not_panicked done fresh r closed =
    let v = Reach-IsSound (rw fresh (new_ctx_wait_group-IsSound done)) r in
    let z = v.zero_closed closed in
    (sym v.negative ∙ zero-not_negative _ z, z, v.closed_stopped closed)

-- In a sound group that is closed, a call that has not succeeded yet never does, whatever follows:
-- Add and Done fail.
pub closed_rejects :
    {s t : System} (i : ℕ)
    → IsSound s.group
    → s.group.closed_done ≡ true
    → s.callers i ≢ ended success
    → Reach s t
    → t.callers i ≢ ended success
closed_rejects i v closed not_yet r = (go v closed not_yet r).2
  where
    go :
        {s t : System}
        → IsSound s.group
        → s.group.closed_done ≡ true
        → s.callers i ≢ ended success
        → Reach s t
        → IsSound t.group × (t.group.closed_done ≡ true) × (t.callers i ≢ ended success)
    go v closed ne here = (v, closed, ne)
    go v closed ne (next r st) =
        let (v', c', n') = go v closed ne r in
        (Step-IsSound st v', Step-closed st v' c', Step-not_success i st v' c' n')

-- The listener is stuck on a caller that has left.
abbrev IsStuck : ℕ → Result → System → Type 0
IsStuck i r s = (s.group.listener ≡ answering i) × (s.callers i ≡ ended r)

InCall-ended : {c : Caller} {r : Result} → InCall c → c ≢ ended r
InCall-ended is_sending e = cc
InCall-ended is_awaiting e = cc
InCall-ended is_without e = cc

update_other : (f : ℕ → Caller) (i j : ℕ) (c : Caller) → i ≢ j → update f j c i ≡ f i
update_other f i j c distinct = ground arith

Step-IsStuck : (i : ℕ) (r : Result) {s t : System} → Step s t → IsStuck i r s → IsStuck i r t
Step-IsStuck i r cancel k = k
Step-IsStuck i r (enqueue j delta e room) k = ground arith
Step-IsStuck i r {s} (give_up j r' c g) k = (
  k.0,
  update_other s.callers i j (ended r') (λ e. InCall-ended c (ap s.callers (sym e) ∙ k.1)) ∙ k.1,
)
Step-IsStuck i r (stop e d) k = cc
Step-IsStuck i r (take event rest e q) k = cc
Step-IsStuck i r (answer j e a) k = ground arith
Step-IsStuck i r (enter j delta e) k = ground arith
Step-IsStuck i r (check e) k = cc
Step-IsStuck i r (set_nil e) k = k

Reach-IsStuck : {s t : System} (i : ℕ) (r : Result) → IsStuck i r s → Reach s t → IsStuck i r t
Reach-IsStuck i r k here = k
Reach-IsStuck i r k (next run st) = Step-IsStuck i r st (Reach-IsStuck i r k run)

-- The listener sends on Success without a select of its own. So in a sound group whose listener
-- answers a caller that has left its call, whatever happens afterwards, the cancellation of the
-- context included, the listener stays at that send and the group is not closed.
pub listener_leaks :
    {s t : System} (i : ℕ) (r : Result)
    → IsSound s.group
    → s.group.listener ≡ answering i
    → s.callers i ≡ ended r
    → Reach s t
    → (t.group.listener ≡ answering i) × (t.group.closed_done ≡ false)
listener_leaks {t} i r v on left run =
    let stuck = Reach-IsStuck i r (on, left) run in
    let sound = Reach-IsSound v run in
    (
      stuck.0,
      elim (Bool-cases t.group.closed_done) [ inl c ↦ cc (sound.closed_stopped c) | inr c ↦ c ],
    )
