-- ===== src/Pkerr/ApiError.antt =====
-- pkerr/apiError.go: making an APIError from a sentinel. Its Is, Unwrap and Error methods stand in
-- Errors/Chain and Errors/Show.
use g_rpeakec_go.Prelude.{ℕ, suc, Option, none, some, List, [], ◌∷◌, ◌++◌, update}
use g_rpeakec_go.Prelude.Text.{Text, codes}
use g_rpeakec_go.Errors.{Err, api, Source, no_source, source, Proto, Heap}
use g_rpeakec_go.Errors.Show.{error_text}
use g_rpeakec_go.Pkerr.Panic.{returned}
use g_rpeakec_go.Pkerr.Go.{Go}

-- The struct APIError: Proto is an address, Sentinel and Source may be nil.
pub record ApiErr : Type 0 where
  pub address : ℕ
  pub made_from : Option ℕ
  pub cause : Source

-- An APIError as an `error`.
abbrev pub as_err : ApiErr → Err
as_err e = api e.address e.made_from e.cause

-- What a call takes from outside: a random UUID, the time, the goroutine's stack, the text of a
-- value's type (package reflect), anypb.New (`none` is its error), and the text that grpc gives for
-- the status code of an error.
pub record World : Type 0 where
  pub uuid : ℕ
  pub now : ℕ
  pub stack : Text
  pub type_of : Err → Text
  pub pack : ℕ → Option ℕ
  pub status_code_text : Err → Text

-- The loop over the details: what cannot be packed is left out.
unfoldable pub pack_details : (ℕ → Option ℕ) → List ℕ → List ℕ
pack_details pack [] = []
pack_details pack (d ∷ ds) = elim (pack d) [
  | none ↦ pack_details pack ds
  | some packed ↦ packed ∷ pack_details pack ds
]

unfoldable pub full_message : Text → Text → Text
full_message default [] = default
full_message default (c ∷ message) = default ++ (codes ": " ++ (c ∷ message))

module _ (w : World) where
  unfoldable pub source_error_text : Heap → Source → Text
  source_error_text h no_source = []
  source_error_text h (source e) = error_text w.status_code_text h e

  unfoldable pub source_type_text : Source → Text
  source_type_text no_source = []
  source_type_text (source e) = w.type_of e

  unfoldable pub new_api_err_basic : ℕ → Text → List ℕ → Source → Go ApiErr
  unfolding source_error_text source_type_text
  new_api_err_basic sentinel message details src h =
      let s = h.sentinel_at sentinel in
      let new_proto : Proto = record {
        id = w.uuid;
        issuer = s.issuer;
        code = s.code;
        grpc_code = s.grpc_code;
        name = s.name;
        message = full_message s.default_message message;
        source_error = source_error_text h src;
        source_type = source_type_text src;
        time = w.now;
        details = pack_details w.pack details;
        trace =
            record { app_name = []; app_host = []; stack_trace = w.stack; additional_context = [] }
            ∷ [];
      } in
      (
        record h { proto_at = update h.proto_at h.next new_proto; next = suc h.next },
        returned (record { address = h.next; made_from = some sentinel; cause = src }),
      )
