-- ===== src/Pkerr/Generator/NewErr.antt =====
-- The error that NewErr makes.
use g_rpeakec_go.Prelude.{ℕ, suc, ◌≡◌, some, List, [], ◌∷◌, ◌==◌, if◌then◌else◌, arith}
use g_rpeakec_go.Prelude.Text.{Text}
use g_rpeakec_go.Errors.{Source, Proto, Heap}
use g_rpeakec_go.Pkerr.Panic.{returned}
use g_rpeakec_go.Pkerr.ApiError.{
  World, full_message, pack_details, source_error_text, source_type_text,
}
use g_rpeakec_go.Pkerr.Generator.{ErrorGenerator, set_last, new_err}

-- The Error that a generator owes for a sentinel: the sentinel's identity, and a single frame with
-- the generator's application, host and, only if asked for, stack; the source only if asked for.
abbrev pub issued_proto : ErrorGenerator → World → Heap → ℕ → Text → List ℕ → Source → Proto
issued_proto gen w h a message details src = record {
  id = w.uuid;
  issuer = (h.sentinel_at a).issuer;
  code = (h.sentinel_at a).code;
  grpc_code = (h.sentinel_at a).grpc_code;
  name = (h.sentinel_at a).name;
  message = full_message (h.sentinel_at a).default_message message;
  source_error = if gen.send_source then source_error_text w h src else [];
  source_type = if gen.send_source then source_type_text w src else [];
  time = w.now;
  details = pack_details w.pack details;
  trace =
      record {
        app_name = gen.app_name;
        app_host = gen.app_host;
        stack_trace = if gen.add_stack_trace then w.stack else [];
        additional_context = [];
      }
      ∷ [];
}

module _ (gen : ErrorGenerator) (w : World) (a : ℕ) (message : Text) (details : List ℕ)
    (src : Source) (h : Heap) where
  -- NewErr never panics and returns an APIError at a new address, made from the sentinel and with
  -- the source as its cause. The settings are applied to it, though the value that applySettings
  -- returns is dropped. No other Error and no sentinel changes.
  pub new_err_lem :
      ((new_err gen w a message details src h).1
        ≡ returned (record { address = h.next; made_from = some a; cause = src }))
      × ((b : ℕ)
          → (new_err gen w a message details src h).0.proto_at b
            ≡ (if b == h.next then issued_proto gen w h a message details src else h.proto_at b))
      × ((new_err gen w a message details src h).0.sentinel_at ≡ h.sentinel_at)
      × ((new_err gen w a message details src h).0.next ≡ suc h.next)
  unfolding new_err set_last
  new_err_lem = (ground arith, λ b. ground arith, ground arith, ground arith)
