-- ===== src/Pksync/WaitGroup/Counter.antt =====
-- The counter of a group, an int of 64 bits, against the deltas that its callers have sent.
use g_rpeakec_go.Prelude.{
  ◌+◌, ◌%◌, ◌^◌, ◌≡◌, refl, ap, sym, ◌∙◌, inl, inr, Bool, List, [], ◌∷◌, ◌++◌, map, Bool-cases,
  arith,
}
use g_rpeakec_go.Prelude.Int.{
  ℤ, pos, ◌+ℤ◌, +ℤ_parts, eq_of_parts, residue, of_residue, wrap_int, residue-wrap_int, residue-+ℤ,
}
use g_rpeakec_go.Pksync.WaitGroup.{
  WaitEvent, CtxWaitGroup, new_ctx_wait_group, handle_event, answered, System, Step, cancel,
  enqueue, enter, give_up, stop, take, answer, check, set_nil, Reach, here, next, is_zero,
  is_negative,
}

abbrev pub sum : List ℤ → ℤ
sum [] = pos 0
sum (d ∷ ds) = d +ℤ sum ds

-- The deltas that wait in the queue.
abbrev pub queued : CtxWaitGroup → List ℤ
queued group = map (λ event. event.delta) group.events

-- The deltas that have been put into the queue in the course of a run.
abbrev pub sent_by : {s t : System} → Step s t → List ℤ
sent_by cancel = []
sent_by (enter i delta e) = []
sent_by (enqueue i delta e room) = delta ∷ []
sent_by (give_up i r c g) = []
sent_by (stop e d) = []
sent_by (take event rest e q) = []
sent_by (answer i e a) = []
sent_by (check e) = []
sent_by (set_nil e) = []

unfoldable pub deltas_sent : {s t : System} → Reach s t → List ℤ
deltas_sent here = []
deltas_sent (next run step) = deltas_sent run ++ sent_by step

+ℤ_assoc : (a b c : ℤ) → (a +ℤ b) +ℤ c ≡ a +ℤ (b +ℤ c)
+ℤ_assoc a b c =
    eq_of_parts _ _
      (omega (arith, +ℤ_parts a b, +ℤ_parts b c, +ℤ_parts (a +ℤ b) c, +ℤ_parts a (b +ℤ c)))

+ℤ_zero : (a : ℤ) → a +ℤ pos 0 ≡ a
+ℤ_zero a = eq_of_parts _ _ (omega (arith, +ℤ_parts a (pos 0)))

zero_+ℤ : (a : ℤ) → pos 0 +ℤ a ≡ a
zero_+ℤ a = eq_of_parts _ _ (omega (arith, +ℤ_parts (pos 0) a))

sum-append : (ds es : List ℤ) → sum (ds ++ es) ≡ sum ds +ℤ sum es
sum-append [] es = sym (zero_+ℤ (sum es))
sum-append (d ∷ ds) es = ap (λ n. d +ℤ n) (sum-append ds es) ∙ sym (+ℤ_assoc d (sum ds) (sum es))

-- The counter with what waits in the queue.
abbrev total : CtxWaitGroup → ℤ
total group = group.counter +ℤ sum (queued group)

map-append_one :
    (events : List WaitEvent) (e : WaitEvent)
    → map (λ event. event.delta) (events ++ e ∷ [])
      ≡ map (λ event. event.delta) events ++ e.delta ∷ []
map-append_one [] e = refl
map-append_one (x ∷ xs) e = ap (λ ds. x.delta ∷ ds) (map-append_one xs e)

-- What is congruent stays so when a sum is added.
residue-+ℤ_left : (a b c : ℤ) → residue a ≡ residue b → residue (a +ℤ c) ≡ residue (b +ℤ c)
residue-+ℤ_left a b c same =
    residue-+ℤ a c ∙ ap (λ r. (r + residue c) % 2 ^ 64) same ∙ sym (residue-+ℤ b c)

total-handle_event :
    (group : CtxWaitGroup) (event : WaitEvent) (rest : List WaitEvent)
    → group.events ≡ event ∷ rest
    → residue (total (handle_event (record group { events = rest }) event)) ≡ residue (total group)
unfolding handle_event
total-handle_event group event rest q =
    let waits = sum (map (λ e. e.delta) rest) in
    let next = group.counter +ℤ event.delta in
    let moved : total group ≡ next +ℤ waits =
      ap (λ es. group.counter +ℤ sum (map (λ e. e.delta) es)) q
      ∙ sym (+ℤ_assoc group.counter event.delta waits) in
    let wrapped : residue (wrap_int next +ℤ waits) ≡ residue (total group) =
      residue-+ℤ_left (wrap_int next) next waits (residue-wrap_int next) ∙ ap residue (sym moved) in
    elim (Bool-cases (is_negative (wrap_int next))) [ inl e ↦ rw e wrapped | inr e ↦ rw e wrapped ]

total-answered : (group : CtxWaitGroup) → total (answered group) ≡ total group
unfolding answered
total-answered group = elim (Bool-cases (is_zero group.counter)) [
  | inl e ↦ rw e refl
  | inr e ↦ rw e refl
]

Step-total :
    {s t : System} (step : Step s t)
    → residue (total t.group) ≡ residue (total s.group +ℤ sum (sent_by step))
Step-total {s} cancel = ap residue (sym (+ℤ_zero (total s.group)))
Step-total {s} (enter i delta e) = ap residue (sym (+ℤ_zero (total s.group)))
Step-total {s} (enqueue i delta e room) =
    let ds = queued s.group in
    ap residue (
      ap (λ es. s.group.counter +ℤ sum es) (map-append_one s.group.events _)
      ∙ ap (λ n. s.group.counter +ℤ n) (sum-append ds (delta ∷ []))
      ∙ sym (+ℤ_assoc s.group.counter (sum ds) (sum (delta ∷ []))))
Step-total {s} (give_up i r c g) = ap residue (sym (+ℤ_zero (total s.group)))
Step-total {s} (stop e d) = ap residue (sym (+ℤ_zero (total s.group)))
Step-total {s} (take event rest e q) =
    total-handle_event s.group event rest q ∙ ap residue (sym (+ℤ_zero (total s.group)))
Step-total {s} (answer i e a) = ap residue (sym (+ℤ_zero (total s.group)))
Step-total {s} (check e) = ap residue (total-answered s.group ∙ sym (+ℤ_zero (total s.group)))
Step-total {s} (set_nil e) = ap residue (sym (+ℤ_zero (total s.group)))

Reach-residue :
    {s t : System} (ctx_done : Bool) (run : Reach s t)
    → s.group ≡ new_ctx_wait_group ctx_done
    → residue (total t.group) ≡ residue (sum (deltas_sent run))
unfolding deltas_sent new_ctx_wait_group
Reach-residue ctx_done here fresh = ap residue (ap total fresh ∙ +ℤ_zero (pos 0))
Reach-residue ctx_done (next run step) fresh =
    Step-total step
    ∙ residue-+ℤ_left _ (sum (deltas_sent run)) (sum (sent_by step))
        (Reach-residue ctx_done run fresh)
    ∙ ap residue (sym (sum-append (deltas_sent run) (sent_by step)))

-- From a new group, under every schedule: the counter with the deltas that wait in the queue is, as
-- an int that wraps around, the sum of the deltas that Add and Done have put into the queue. No
-- delta is lost or counted twice, also after the group is closed, has panicked or its context has
-- ended.
pub Reach-counter :
    {s t : System} (ctx_done : Bool) (run : Reach s t)
    → s.group ≡ new_ctx_wait_group ctx_done
    → wrap_int (t.group.counter +ℤ sum (queued t.group)) ≡ wrap_int (sum (deltas_sent run))
unfolding wrap_int
Reach-counter ctx_done run fresh = ap of_residue (Reach-residue ctx_done run fresh)
