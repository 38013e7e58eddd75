-- ===== src/Errors/Show.antt =====
-- The Error() methods.
use g_rpeakec_go.Prelude.{ℕ, suc, [], ◌++◌}
use g_rpeakec_go.Prelude.Text.{Text, codes, show}
use g_rpeakec_go.Errors.{
  Err, canceled, deadline_exceeded, wait_group_closed, foreign, text_err, wrapped, panic_err,
  panic_val, sentinel, proto, api, grpc_code, client, service, services, map_failed, Source,
  no_source, source, Errs, nil, cons, Heap, Sentinel, Proto,
}

-- SentinelError.Error
unfoldable pub sentinel_text : Sentinel → Text
sentinel_text s =
    s.issuer
    ++ (codes " "
        ++ (s.name ++ (codes " (" ++ (show s.code ++ (codes "): " ++ s.default_message)))))

-- protogen.Error.Error
unfoldable pub proto_text : Proto → Text
proto_text p =
    codes "("
    ++ (p.name
        ++ (codes " | "
            ++ (p.issuer ++ (codes " | " ++ (show p.code ++ (codes ") " ++ p.message))))))

-- The indent of pkservices/errs.go.
abbrev pub indent : Text
indent = codes "    "

abbrev count : Errs → ℕ
count nil = 0
count (cons e es) = suc (count es)

-- The text of the status code that clientErr.Error prints is grpc's.
module _ (status_code_text : Err → Text) where
  unfoldable mutual
    pub error_text : Heap → Err → Text
    error_text h canceled = codes "context canceled"
    error_text h deadline_exceeded = codes "context deadline exceeded"
    error_text h wait_group_closed = codes "CtxWaitGroup is closed"
    error_text h (foreign _ t) = t
    error_text h (text_err t) = t
    error_text h (wrapped t _) = t
    error_text h (panic_err e) = codes "panic recovered: " ++ error_text h e
    error_text h (panic_val t) = codes "panic recovered: " ++ t
    error_text h (sentinel a) = sentinel_text (h.sentinel_at a)
    error_text h (proto p) = proto_text (h.proto_at p)
    error_text h (api p _ src) = proto_text (h.proto_at p) ++ source_text h src
    error_text h (grpc_code c) = show c
    error_text h (client e) = codes "grpc error '" ++ (status_code_text e ++ codes "'")
    error_text h (service i e) = codes "service '" ++ (i ++ (codes "': " ++ error_text h e))
    error_text h (services es) = show (count es) ++ (codes " errors occured:" ++ errs_text h es)
    error_text h (map_failed e i) =
        codes "error calling mapFunc on value " ++ (show i ++ (codes ": " ++ error_text h e))

    -- What APIError.Error adds for a Source that is not nil.
    pub source_text : Heap → Source → Text
    source_text h no_source = []
    source_text h (source e) = codes " | from: " ++ error_text h e

    -- The lines of ServicesErrors.Error.
    pub errs_text : Heap → Errs → Text
    errs_text h nil = []
    errs_text h (cons e es) =
        codes "\n" ++ (indent ++ (codes "- " ++ (error_text h e ++ errs_text h es)))
