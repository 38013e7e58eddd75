-- ===== src/Pkerr/Rpc.antt =====
-- The two sides of a call: what a handler fails with on the server is recognised by the client.
use g_rpeakec_go.Prelude.{
  ℕ, ◌≡◌, ◌≢◌, refl, ap, sym, ◌∙◌, true, Option, none, some, [], ◌∷◌, ◌++◌, ◌==◌, if◌then◌else◌,
  suc, arith,
}
use g_rpeakec_go.Prelude.Text.{Text, text_eq_iff}
use g_rpeakec_go.Errors.{Err, api, sentinel, client, source, Proto, Heap}
use g_rpeakec_go.Errors.Chain.{errors_is}
use g_rpeakec_go.Pkerr.Panic.{Outcome, returned}
use g_rpeakec_go.Pkerr.ApiError.{World}
use g_rpeakec_go.Pkerr.Generator.{ErrorGenerator}
use g_rpeakec_go.Pkerr.Generator.Total.{identity, owed_identity}
use g_rpeakec_go.Pkerr.Status.{StatusApi}
use g_rpeakec_go.Pkerr.Server.Laws.{IsStatusOf, details-err_to_status}
use g_rpeakec_go.Pkerr.Client.{extract_client_error_from_invoker, this_trace_info}

-- The server has turned `src` into the status error `err`; a client with its own heap, generator
-- and world takes it in. The client's sentinel at `b` has the code and the issuer of the error.
module _ (g : StatusApi) (w w' : World) (gen gen' : ErrorGenerator) (err_unknown : ℕ) (src : Err)
    (h hc : Heap) (s : g.Status) (r : IsStatusOf g w gen err_unknown src h s) (err : Err)
    (b : ℕ) where
  abbrev pub received : Heap × Outcome (Option Err)
  received = extract_client_error_from_invoker g w' gen' (some err) hc

  abbrev pub sent : Proto
  sent = r.result.proto_at r.converted.address

  extract-err :
      g.to_err s ≡ some err
      → g.IsWire sent
      → (owed_identity h err_unknown src).0 ≢ 0
      → received ≡ (
        record hc {
          proto_at = λ a.
              if a == hc.next
              then (record sent { trace = sent.trace ++ this_trace_info g w' gen' ∷ [] })
              else hc.proto_at a;
          next = suc hc.next;
        },
        returned (some (api hc.next none (source (client err)))),
      )
  unfolding extract_client_error_from_invoker
  extract-err is_err wire not_ok =
      rw (g.from_to_err s err is_err)
        (rw (details-err_to_status g w gen err_unknown src h s r wire not_ok) refl)

  -- If the server's status for an error is an error that can be sent, with a code other than OK,
  -- and the client has a sentinel with the error's code and issuer, then the client's middleware
  -- gives an APIError that errors.Is finds to be that sentinel; its Error has the trace of the
  -- server's with one frame of the client's behind it, and the gRPC code, code and issuer that the
  -- server's error was owed.
  pub rpc_round_trip :
      g.to_err s ≡ some err
      → g.IsWire sent
      → (owed_identity h err_unknown src).0 ≢ 0
      → (hc.sentinel_at b).code ≡ (owed_identity h err_unknown src).1
      → (hc.sentinel_at b).issuer ≡ (owed_identity h err_unknown src).2
      → (received.1 ≡ returned (some (api hc.next none (source (client err)))))
        × (errors_is received.0 (api hc.next none (source (client err))) (sentinel b) ≡ true)
        × ((received.0.proto_at hc.next).trace ≡ sent.trace ++ this_trace_info g w' gen' ∷ [])
        × (identity (received.0.proto_at hc.next) ≡ owed_identity h err_unknown src)
  unfolding errors_is
  rpc_round_trip is_err wire not_ok same_code same_issuer =
      let e = extract-err is_err wire not_ok in
      let id = r.has_identity in
      let same_code' : sent.code ≡ (hc.sentinel_at b).code =
        ap (λ (x : ℕ × ℕ × Text). x.1) id ∙ sym same_code in
      let same_issuer' : sent.issuer ≡ (hc.sentinel_at b).issuer =
        ap (λ (x : ℕ × ℕ × Text). x.2) id ∙ sym same_issuer in
      rw e (
        refl,
        ground (arith, (text_eq_iff sent.issuer (hc.sentinel_at b).issuer).1 same_issuer'),
        ground arith,
        ground (arith, id),
      )
