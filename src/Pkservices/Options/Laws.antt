-- ===== src/Pkservices/Options/Laws.antt =====
-- The order of the middleware in the interceptors that a manager's options make.
use g_rpeakec_go.Prelude.{◌≡◌, ap, Bool, true, false, Option, none, some, List, [], ◌∷◌, ◌++◌}
use g_rpeakec_go.Pkmiddleware.Chain.{
  UnaryServerHandler, StreamServerHandler, wrap_all, new_unary_server_middleware_interceptor,
  new_stream_server_middleware_interceptor,
}
use g_rpeakec_go.Pkmiddleware.Chain.Laws.{wrap_all-append}
use g_rpeakec_go.Pkservices.Options.{
  GrpcLoggingOpts, ManagerOpts, when, of_generator, create_unary_middleware_interceptor,
  create_stream_middleware_interceptor,
}

-- A middleware that is switched on or off, and one that needs a generator.
abbrev pub apply_if : {H : Type 0} → Bool → (H → H) → H → H
apply_if true m handler = m handler
apply_if false m handler = handler

abbrev pub apply_some : {G H : Type 0} → (G → H → H) → Option G → H → H
apply_some m none handler = handler
apply_some m (some gen) handler = m gen handler

wrap_all-layers :
    {G H : Type 0} (nf : H → H) (c : G → H → H) (lg : H → H) (on logs : Bool) (gen : Option G)
    (us : List (H → H)) (handler : H)
    → wrap_all (((when on nf ++ of_generator c gen) ++ us) ++ when logs lg) handler
      ≡ apply_if logs lg (wrap_all us (apply_some c gen (apply_if on nf handler)))
unfolding wrap_all
wrap_all-layers nf c lg true true none us handler = wrap_all-append us (lg ∷ []) (nf handler)
wrap_all-layers nf c lg true true (some g) us handler =
    wrap_all-append us (lg ∷ []) (c g (nf handler))
wrap_all-layers nf c lg true false none us handler = wrap_all-append us [] (nf handler)
wrap_all-layers nf c lg true false (some g) us handler = wrap_all-append us [] (c g (nf handler))
wrap_all-layers nf c lg false true none us handler = wrap_all-append us (lg ∷ []) handler
wrap_all-layers nf c lg false true (some g) us handler = wrap_all-append us (lg ∷ []) (c g handler)
wrap_all-layers nf c lg false false none us handler = wrap_all-append us [] handler
wrap_all-layers nf c lg false false (some g) us handler = wrap_all-append us [] (c g handler)

-- The unary interceptor of a manager runs, from the inside: the handler, the not-found middleware
-- if it is on, the generator's conversion of errors if there is a generator, the added middleware
-- with the last one outermost, and the logging if it is on. So the generator's status is what the
-- added middleware and the log see.
pub create_unary_order :
    {Ctx Req Info R S G L O : Type 0}
    (not_found : Option G → UnaryServerHandler Ctx Req Info R → UnaryServerHandler Ctx Req Info R)
    (convert : G → UnaryServerHandler Ctx Req Info R → UnaryServerHandler Ctx Req Info R)
    (logging : L
      → GrpcLoggingOpts
      → UnaryServerHandler Ctx Req Info R
      → UnaryServerHandler Ctx Req Info R)
    (opts : ManagerOpts (UnaryServerHandler Ctx Req Info R) S G L O) (ctx : Ctx) (req : Req)
    (info : Info) (handler : Ctx → Req → R)
    → create_unary_middleware_interceptor not_found convert logging opts ctx req info handler
      ≡ apply_if opts.add_grpc_logging_middleware
          (logging opts.logger opts.grpc_logging_opts)
          (wrap_all opts.grpc_unary_middleware (
            apply_some convert opts.err_generator (
              apply_if opts.add_err_not_found_middleware
                (not_found opts.err_generator)
                (λ c r i. handler c r))))
          ctx
          req
          info
unfolding create_unary_middleware_interceptor new_unary_server_middleware_interceptor
create_unary_order not_found convert logging opts ctx req info handler =
    ap (λ (h : UnaryServerHandler _ _ _ _). h ctx req info)
      (wrap_all-layers (not_found opts.err_generator) convert
        (logging opts.logger opts.grpc_logging_opts) opts.add_err_not_found_middleware
        opts.add_grpc_logging_middleware opts.err_generator opts.grpc_unary_middleware
        (λ c r i. handler c r))

-- The stream interceptor of a manager runs, from the inside: the handler, the generator's
-- conversion of errors if there is a generator, the added middleware with the last one outermost,
-- and the logging if it is on.
pub create_stream_order :
    {Srv Stream Info R U G L O : Type 0}
    (convert : G → StreamServerHandler Srv Stream Info R → StreamServerHandler Srv Stream Info R)
    (logging : L
      → GrpcLoggingOpts
      → StreamServerHandler Srv Stream Info R
      → StreamServerHandler Srv Stream Info R)
    (opts : ManagerOpts U (StreamServerHandler Srv Stream Info R) G L O) (srv : Srv) (ss : Stream)
    (info : Info) (handler : Srv → Stream → R)
    → create_stream_middleware_interceptor convert logging opts srv ss info handler
      ≡ apply_if opts.add_grpc_logging_middleware
          (logging opts.logger opts.grpc_logging_opts)
          (wrap_all opts.grpc_stream_middleware
            (apply_some convert opts.err_generator (λ s t i. handler s t)))
          srv
          ss
          info
unfolding create_stream_middleware_interceptor new_stream_server_middleware_interceptor
create_stream_order convert logging opts srv ss info handler =
    ap (λ (h : StreamServerHandler _ _ _ _). h srv ss info)
      (wrap_all-layers (λ h. h) convert (logging opts.logger opts.grpc_logging_opts) false
        opts.add_grpc_logging_middleware opts.err_generator opts.grpc_stream_middleware
        (λ s t i. handler s t))
