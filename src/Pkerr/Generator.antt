-- ===== src/Pkerr/Generator.antt =====
-- pkerr/generator.go, and the conversion of an error to an APIError in pkerr/generatorMiddleware.go.
pub mod Settings
pub mod NewErr
pub mod Laws
pub mod Total
use g_rpeakec_go.Prelude.{ℕ, Bool, Option, none, some, List, [], ◌∷◌, if◌then◌else◌, not}
use g_rpeakec_go.Prelude.Text.{Text, codes, text_eq, replace}
use g_rpeakec_go.Errors.{Err, api, Source, no_source, source, Proto, TraceInfo, Heap}
use g_rpeakec_go.Errors.Chain.{as_sentinel, as_api, Found, found_api, found_sentinel}
use g_rpeakec_go.Errors.Show.{error_text, sentinel_text}
use g_rpeakec_go.Pkerr.Panic.{Recovered, an_error, returned}
use g_rpeakec_go.Pkerr.Go.{Go, ◌>>=◌, ◌>>◌, return, panic, get_heap, write_proto}
use g_rpeakec_go.Pkerr.ApiError.{World, ApiErr, as_err, new_api_err_basic}

pub record ErrorGenerator : Type 0 where
  pub app_name : Text
  pub app_host : Text
  pub add_stack_trace : Bool
  pub send_context : Bool
  pub send_source : Bool

-- The receiver is a copy.
unfoldable pub with_app_name : ErrorGenerator → Text → ErrorGenerator
with_app_name gen app_name = record gen { app_name = app_name }

-- `hostname` is what os.Hostname gives, "" on its error.
unfoldable pub new_err_generator : Text → Text → (h t c s : Bool) → ErrorGenerator
new_err_generator hostname app_name add_host add_stack_trace send_context send_source =
    let known = if text_eq hostname [] then codes "[UNKNOWN]" else hostname in
    record {
      app_name = app_name;
      app_host = if add_host then known else [];
      add_stack_trace = add_stack_trace;
      send_context = send_context;
      send_source = send_source;
    }

-- `xs[len(xs)-1]` for a write; `none` where the slice is empty and the index -1 panics.
unfoldable pub set_last : (TraceInfo → TraceInfo) → List TraceInfo → Option (List TraceInfo)
set_last f [] = none
set_last f (t ∷ []) = some (f t ∷ [])
set_last f (t ∷ u ∷ ts) = elim (set_last f (u ∷ ts)) [ none ↦ none | some us ↦ some (t ∷ us) ]

abbrev pub index_out_of_range : Recovered
index_out_of_range = an_error (Err.text_err (codes "runtime error: index out of range [-1]"))

put_trace : ℕ → Option (List TraceInfo) → Go (Unit {0})
put_trace p none h = panic index_out_of_range h
put_trace p (some trace) h = write_proto p (record (h.proto_at p) { trace = trace }) h

-- A write to the last frame of the Error at `p`.
unfoldable pub write_last_trace : ℕ → (TraceInfo → TraceInfo) → Go (Unit {0})
unfolding put_trace
write_last_trace p f h = put_trace p (set_last f (h.proto_at p).trace) h

module _ (w : World) where
  abbrev pub text_of : Err → Go Text
  text_of e h = (h, returned (error_text w.status_code_text h e))

  -- The rest of the text is sent as the context of the last frame.
  unfoldable pub add_context : ApiErr → Text → Err → Go (Unit {0})
  add_context e [] src = return tt
  add_context e (c ∷ pk_text) src = do
    whole ← text_of src
    let context = replace (c ∷ pk_text) (codes "[error]") whole
    write_last_trace e.address (λ t. record t { additional_context = context })

-- The text of the part, unless it is the whole text.
abbrev unless_same : Text → Text → Text
unless_same part whole = if text_eq part whole then [] else part

module _ (gen : ErrorGenerator) where
  unfoldable pub set_frame : TraceInfo → TraceInfo
  set_frame t = record {
    app_name = gen.app_name;
    app_host = gen.app_host;
    stack_trace = if gen.add_stack_trace then t.stack_trace else [];
    additional_context = if gen.send_context then t.additional_context else [];
  }

  abbrev clear_source : Proto → Proto
  clear_source e = if gen.send_source then e else (record e { source_error = []; source_type = [] })

  -- The APIError that is passed holds the address `p`, so the caller's copy sees the writes.
  unfoldable pub apply_settings : ℕ → Go (Unit {0})
  unfolding set_frame write_last_trace
  apply_settings p = do
    h ← get_heap
    write_proto p (clear_source (h.proto_at p))
    write_last_trace p set_frame

  module _ (w : World) where
    -- `apiErr` gets the return of applySettings and `newErr` is returned: both hold one pointer.
    unfoldable pub new_err : ℕ → Text → List ℕ → Source → Go ApiErr
    unfolding new_api_err_basic apply_settings
    new_err sentinel message details src = do
      e ← new_api_err_basic w sentinel message details src
      apply_settings e.address
      return e

    -- The second and the third branch of the conversion; errors.As has filled in `apiErr`.
    apply_to_found : ApiErr → Err → Go (ApiErr × Text)
    apply_to_found e src = do
      apply_settings e.address
      part ← text_of w (as_err e)
      whole ← text_of w src
      return (e, unless_same part whole)

    convert_found : ℕ → Err → Option Found → Go (ApiErr × Text)
    convert_found err_unknown src none = do
      message ← text_of w src
      e ← new_err err_unknown message [] (source src)
      return (e, [])
    convert_found err_unknown src (some (found_api p s inner)) =
        apply_to_found (record { address = p; made_from = s; cause = inner }) src
    convert_found err_unknown src (some (found_sentinel a)) = do
      e ← new_api_err_basic w a [] [] no_source
      apply_to_found e src

    convert : ℕ → Err → Option ℕ → Go (ApiErr × Text)
    convert err_unknown src none = convert_found err_unknown src (as_api src)
    convert err_unknown src (some a) = do
      e ← new_err a [] [] (source src)
      part ← text_of w (Err.sentinel a)
      whole ← text_of w src
      return (e, unless_same part whole)

    -- The APIError, and the part of the error's text that it is responsible for. `err_unknown` is
    -- the address of the package's ErrUnknown.
    unfoldable pub err_to_api_err_convert_type : ℕ → Err → Go (ApiErr × Text)
    unfolding convert convert_found apply_to_found
    err_to_api_err_convert_type err_unknown src = convert err_unknown src (as_sentinel src)

    unfoldable pub err_to_api_err : ℕ → Err → Go ApiErr
    err_to_api_err err_unknown src = do
      (e, pk_text) ← err_to_api_err_convert_type err_unknown src
      add_context w e pk_text src
      return e
