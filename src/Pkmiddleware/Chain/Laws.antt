-- ===== src/Pkmiddleware/Chain/Laws.antt =====
-- The order in which a chain runs.
use g_rpeakec_go.Prelude.{◌≡◌, refl, ap, ◌∙◌, List, [], ◌∷◌, ◌++◌, append_assoc, append-nil}
use g_rpeakec_go.Pkmiddleware.Chain.{
  wrap_all, UnaryServerHandler, new_unary_server_middleware_interceptor,
}

pub wrap_all-append {ℓ} :
    {H : Type ℓ} (ms ns : List (H → H)) (handler : H)
    → wrap_all (ms ++ ns) handler ≡ wrap_all ns (wrap_all ms handler)
unfolding wrap_all
wrap_all-append [] ns handler = refl
wrap_all-append (m ∷ ms) ns handler = wrap_all-append ms ns (m handler)

-- The last middleware of a unary interceptor is the outermost: it is called with the request, and
-- its `next` is the interceptor of the others.
pub unary_interceptor_last :
    {Ctx Req Info R : Type 0}
    (ms : List (UnaryServerHandler Ctx Req Info R → UnaryServerHandler Ctx Req Info R))
    (m : UnaryServerHandler Ctx Req Info R → UnaryServerHandler Ctx Req Info R) (ctx : Ctx)
    (req : Req) (info : Info) (handler : Ctx → Req → R)
    → new_unary_server_middleware_interceptor (ms ++ m ∷ []) ctx req info handler
      ≡ m (λ c r i. new_unary_server_middleware_interceptor ms c r i handler) ctx req info
unfolding new_unary_server_middleware_interceptor
unary_interceptor_last ms m ctx req info handler =
    ap (λ h. h ctx req info) (wrap_all-append ms (m ∷ []) (λ c r i. handler c r))

-- A middleware that notes a name before and after the call of `next`, on a log.
abbrev pub tracing {ℓ} : {N : Type ℓ} → N × N → (List N → List N) → List N → List N
tracing (before, after) next log = next (log ++ before ∷ []) ++ after ∷ []

abbrev pub tracing_all {ℓ} :
    {N : Type ℓ} → List (N × N) → List ((List N → List N) → List N → List N)
tracing_all [] = []
tracing_all (m ∷ ms) = tracing m ∷ tracing_all ms

-- The names on the way in, last middleware first, and on the way out, first middleware first.
abbrev pub way_in {ℓ} : {N : Type ℓ} → List (N × N) → List N
way_in [] = []
way_in (m ∷ ms) = way_in ms ++ m.0 ∷ []

abbrev pub way_out {ℓ} : {N : Type ℓ} → List (N × N) → List N
way_out [] = []
way_out (m ∷ ms) = m.1 ∷ way_out ms

-- A chain runs every middleware once: on the way in from the last to the first, then the handler,
-- and on the way out from the first to the last.
pub wrap_all_order {ℓ} :
    {N : Type ℓ} (ms : List (N × N)) (handler : List N → List N) (log : List N)
    → wrap_all (tracing_all ms) handler log ≡ handler (log ++ way_in ms) ++ way_out ms
unfolding wrap_all
wrap_all_order [] handler log = simp append-nil
wrap_all_order (m ∷ ms) handler log = wrap_all_order ms (tracing m handler) log ∙ simp append_assoc
