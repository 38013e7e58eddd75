-- ===== src/Errors/Chain.antt =====
-- Walking an error's chain: the Unwrap, As and Is methods of the packages, and what errors.As and
-- errors.Is of the standard library make of them.
use g_rpeakec_go.Prelude.{ℕ, ◌==◌, Bool, true, false, ◌&&◌, ◌||◌, Option, none, some}
use g_rpeakec_go.Prelude.Text.{text_eq}
use g_rpeakec_go.Errors.{
  Err, canceled, deadline_exceeded, wait_group_closed, foreign, text_err, wrapped, panic_err,
  panic_val, sentinel, proto, api, grpc_code, client, service, map_failed, Source, no_source,
  source, Heap,
}

-- The Unwrap methods; `none` where there is none, or where it returns nil.
unfoldable pub unwrap : Err → Option Err
unwrap (wrapped _ e) = some e
unwrap (panic_err e) = some e
unwrap (panic_val t) = some (text_err t)
unwrap (api _ _ no_source) = none
unwrap (api _ _ (source e)) = some e
unwrap (client e) = some e
unwrap (service _ e) = some e
unwrap (map_failed e _) = some e
unwrap _ = none

-- errors.As with a **SentinelError: the first sentinel of the chain. The only As method,
-- SentinelError.As, refuses that target.
unfoldable pub as_sentinel : Err → Option ℕ
as_sentinel (sentinel a) = some a
as_sentinel (wrapped _ e) = as_sentinel e
as_sentinel (panic_err e) = as_sentinel e
as_sentinel (api _ _ (source e)) = as_sentinel e
as_sentinel (client e) = as_sentinel e
as_sentinel (service _ e) = as_sentinel e
as_sentinel (map_failed e _) = as_sentinel e
as_sentinel _ = none

-- What errors.As finds for an *APIError: an APIError, or a sentinel, whose As method makes one.
pub data Found : Type 0 where
  found_api : (proto : ℕ) → Option ℕ → Source → Found
  found_sentinel : ℕ → Found

unfoldable pub as_api : Err → Option Found
as_api (api p s src) = some (found_api p s src)
as_api (sentinel a) = some (found_sentinel a)
as_api (wrapped _ e) = as_api e
as_api (panic_err e) = as_api e
as_api (client e) = as_api e
as_api (service _ e) = as_api e
as_api (map_failed e _) = as_api e
as_api _ = none

-- The Is method of APIError.
unfoldable pub api_is : Heap → ℕ → Err → Bool
api_is h p (api q _ _) =
    ((h.proto_at p).code == (h.proto_at q).code)
    && text_eq (h.proto_at p).issuer (h.proto_at q).issuer
api_is h p (sentinel a) =
    ((h.proto_at p).code == (h.sentinel_at a).code)
    && text_eq (h.proto_at p).issuer (h.sentinel_at a).issuer
api_is h p (proto q) =
    ((h.proto_at p).code == (h.proto_at q).code)
    && text_eq (h.proto_at p).issuer (h.proto_at q).issuer
api_is h p (grpc_code c) = (h.proto_at p).grpc_code == c
api_is h p _ = false

-- `err == target` for the targets that are used here: the context errors, ErrWaitGroupClosed,
-- pointers, gRPC codes, and errors of other packages by identity.
unfoldable pub identical : Err → Err → Bool
identical canceled canceled = true
identical deadline_exceeded deadline_exceeded = true
identical wait_group_closed wait_group_closed = true
identical (foreign i _) (foreign j _) = i == j
identical (sentinel a) (sentinel b) = a == b
identical (proto a) (proto b) = a == b
identical (grpc_code a) (grpc_code b) = a == b
identical _ _ = false

-- errors.Is.
unfoldable pub errors_is : Heap → Err → Err → Bool
unfolding identical api_is
errors_is h (wrapped t e) target = errors_is h e target
errors_is h (panic_err e) target = errors_is h e target
errors_is h (panic_val t) target = false
errors_is h (api p s no_source) target = api_is h p target
errors_is h (api p s (source e)) target = api_is h p target || errors_is h e target
errors_is h (client e) target = errors_is h e target
errors_is h (service i e) target = errors_is h e target
errors_is h (map_failed e i) target = errors_is h e target
errors_is h e target = identical e target
