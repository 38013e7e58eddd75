-- ===== src/Pkmiddleware/Chain.antt =====
-- pkmiddleware/serverInterceptors.go and pkmiddleware/clientInterceptors.go.
-- An effectful call is a function into a type `M R` that the caller chooses; gRPC's own handlers,
-- invokers and streamers are arguments.
pub mod Laws
use g_rpeakec_go.Prelude.{List, [], ◌∷◌}

-- The loop of the four interceptors: each middleware wraps what has been built so far.
unfoldable pub wrap_all {ℓ} : {H : Type ℓ} → List (H → H) → H → H
wrap_all [] handler = handler
wrap_all (this_middleware ∷ middleware) handler = wrap_all middleware (this_middleware handler)

-- Server side: context, request, info; `R` is the pair (resp, err) with its effects.
abbrev pub UnaryServerHandler : (Ctx Req Info R : Type 0) → Type 0
UnaryServerHandler Ctx Req Info R = Ctx → Req → Info → R

unfoldable pub new_core_unary_server_handler :
    {Ctx Req Info R : Type 0} → (Ctx → Req → R) → UnaryServerHandler Ctx Req Info R
new_core_unary_server_handler handler ctx req info = handler ctx req

unfoldable pub new_unary_server_middleware_interceptor :
    {Ctx Req Info R : Type 0}
    → List (UnaryServerHandler Ctx Req Info R → UnaryServerHandler Ctx Req Info R)
    → Ctx
    → Req
    → Info
    → (Ctx → Req → R)
    → R
unfolding wrap_all new_core_unary_server_handler
new_unary_server_middleware_interceptor middleware ctx req info handler =
    wrap_all middleware (new_core_unary_server_handler handler) ctx req info

-- Server streams: srv, the stream, info.
abbrev pub StreamServerHandler : (Srv Stream Info R : Type 0) → Type 0
StreamServerHandler Srv Stream Info R = Srv → Stream → Info → R

unfoldable pub new_core_stream_server_handler :
    {Srv Stream Info R : Type 0} → (Srv → Stream → R) → StreamServerHandler Srv Stream Info R
new_core_stream_server_handler handler srv ss info = handler srv ss

unfoldable pub new_stream_server_middleware_interceptor :
    {Srv Stream Info R : Type 0}
    → List (StreamServerHandler Srv Stream Info R → StreamServerHandler Srv Stream Info R)
    → Srv
    → Stream
    → Info
    → (Srv → Stream → R)
    → R
unfolding wrap_all new_core_stream_server_handler
new_stream_server_middleware_interceptor middleware srv ss info handler =
    wrap_all middleware (new_core_stream_server_handler handler) srv ss info

-- Client side: context, method, request, connection, options. The invoker fills `reply` in place
-- and returns an error; the handler returns the pair (reply, err).
abbrev pub UnaryClientHandler : (Ctx Method Req Conn Opts R : Type 0) → Type 0
UnaryClientHandler Ctx Method Req Conn Opts R = Ctx → Method → Req → Conn → Opts → R

unfoldable pub new_core_unary_client_handler :
    {Ctx Method Req Conn Opts Reply R : Type 0}
    → (Ctx → Method → Req → Reply → Conn → Opts → R)
    → Reply
    → UnaryClientHandler Ctx Method Req Conn Opts R
new_core_unary_client_handler invoker reply ctx method req conn opts =
    invoker ctx method req reply conn opts

-- `err_of` drops the reply of the pair, which the invoker has filled in.
unfoldable pub new_unary_client_middleware_interceptor :
    {Ctx Method Req Conn Opts Reply R E : Type 0}
    → (R → E)
    → List (
        UnaryClientHandler Ctx Method Req Conn Opts R
        → UnaryClientHandler Ctx Method Req Conn Opts R)
    → Ctx
    → Method
    → Req
    → Reply
    → Conn
    → (Ctx → Method → Req → Reply → Conn → Opts → R)
    → Opts
    → E
unfolding wrap_all new_core_unary_client_handler
new_unary_client_middleware_interceptor err_of middleware ctx method req reply conn invoker opts =
    err_of
      (wrap_all middleware (new_core_unary_client_handler invoker reply) ctx method req conn opts)

abbrev pub StreamClientHandler : (Ctx Desc Conn Method Opts R : Type 0) → Type 0
StreamClientHandler Ctx Desc Conn Method Opts R = Ctx → Desc → Conn → Method → Opts → R

unfoldable pub new_core_stream_client_handler :
    {Ctx Desc Conn Method Opts R : Type 0}
    → (Ctx → Desc → Conn → Method → Opts → R)
    → StreamClientHandler Ctx Desc Conn Method Opts R
new_core_stream_client_handler streamer ctx desc conn method opts =
    streamer ctx desc conn method opts

unfoldable pub new_stream_client_middleware_interceptor :
    {Ctx Desc Conn Method Opts R : Type 0}
    → List (
        StreamClientHandler Ctx Desc Conn Method Opts R
        → StreamClientHandler Ctx Desc Conn Method Opts R)
    → Ctx
    → Desc
    → Conn
    → Method
    → (Ctx → Desc → Conn → Method → Opts → R)
    → Opts
    → R
unfolding wrap_all new_core_stream_client_handler
new_stream_client_middleware_interceptor middleware ctx desc conn method streamer opts =
    wrap_all middleware (new_core_stream_client_handler streamer) ctx desc conn method opts
