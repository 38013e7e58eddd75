-- ===== src/Pkerr/Server/Laws.antt =====
-- What reaches the client: the status of an error or a panic, and a missing response.
use g_rpeakec_go.Prelude.{
  ℕ, ◌≡◌, ◌≢◌, refl, ap, sym, ◌∙◌, inl, inr, Option, none, some, [], ◌∷◌, ◌++◌, Option-cases,
}
use g_rpeakec_go.Prelude.Text.{Text}
use g_rpeakec_go.Errors.{Err, panic_err, panic_val, Proto, Heap}
use g_rpeakec_go.Errors.Show.{error_text}
use g_rpeakec_go.Pkerr.Panic.{
  Outcome, returned, panicked, nothing, an_error, a_value, catch_panic, check_panic,
}
use g_rpeakec_go.Pkerr.Go.{after_returned}
use g_rpeakec_go.Pkerr.ApiError.{World, ApiErr, as_err}
use g_rpeakec_go.Pkerr.Generator.{ErrorGenerator, err_to_api_err}
use g_rpeakec_go.Pkerr.Generator.Total.{IsTraced, identity, owed_identity, err_to_api_err_total}
use g_rpeakec_go.Pkerr.Status.{StatusApi, error_detail}
use g_rpeakec_go.Pkerr.Server.{
  UnaryHandler, err_to_status, or_else, unary_caught, unary_server_middleware,
}

-- A handler has failed, by what it has ended with: it has returned a response and an error, or has
-- panicked with an error value or a text, which leaves no response. A panic with nil is none.
abbrev pub FailsWith : {R : Type 0} → Outcome (Option R × Option Err) → Option R → Err → Type 0
FailsWith (returned (r, err)) resp src = (resp ≡ r) × (err ≡ some src)
FailsWith (panicked nothing) resp src = ⊥
FailsWith (panicked (an_error e)) resp src = (resp ≡ none) × (src ≡ panic_err e)
FailsWith (panicked (a_value t)) resp src = (resp ≡ none) × (src ≡ panic_val t)

module _ (g : StatusApi) (w : World) (gen : ErrorGenerator) (err_unknown : ℕ) where
  open g use {Status, new_status, with_details, to_err, from_error, code, details, IsWire}

  -- A status for an error: it has the owed gRPC code, and carries the Error if that can be sent.
  pub record IsStatusOf (src : Err) (h : Heap) (s : Status) : Type 0 where
    pub converted : ApiErr
    pub result : Heap
    pub converts : err_to_api_err gen w err_unknown src h ≡ (result, returned converted)
    pub runs : err_to_status g w gen err_unknown src h ≡ (result, returned (to_err s))
    pub has_code : code s ≡ (owed_identity h err_unknown src).0
    pub has_identity :
        identity (result.proto_at converted.address) ≡ owed_identity h err_unknown src
    pub built :
        s
        ≡ or_else g w gen err_unknown
            (new_status
              (result.proto_at converted.address).grpc_code
              (error_text w.status_code_text result (as_err converted)))
            (with_details
              (new_status
                (result.proto_at converted.address).grpc_code
                (error_text w.status_code_text result (as_err converted)))
              (result.proto_at converted.address))

  code-or_else :
      (s : Status) (p : Proto) → code (or_else g w gen err_unknown s (with_details s p)) ≡ code s
  code-or_else s p = elim (Option-cases (with_details s p)) [
    | inl q ↦ rw q
    | inr (t, q) ↦ rw q (g.with_details_code s p t q)
  ]

  pub err_to_status_total :
      (src : Err) (h : Heap) → IsTraced h src → (s : Status) × IsStatusOf src h s
  unfolding err_to_status
  err_to_status_total src h traced =
      let (e, v, owed) = err_to_api_err_total gen w err_unknown src h traced in
      let h' : Heap = (err_to_api_err gen w err_unknown src h).0 in
      let p : Proto = h'.proto_at e.address in
      let s : Status = new_status p.grpc_code (error_text w.status_code_text h' (as_err e)) in
      let same : identity p ≡ owed_identity h err_unknown src =
        ap identity owed.converts.holds ∙ owed.same_identity in
      (
        or_else g w gen err_unknown s (with_details s p),
        record {
          converted = e;
          result = h';
          converts = λ i. (h', owed.converts.returns i);
          runs = after_returned (err_to_api_err gen w err_unknown src h) e _ owed.converts.returns;
          has_code = code-or_else s p ∙ g.code-new_status _ _ ∙ ap (λ (x : ℕ × ℕ × Text). x.0) same;
          has_identity = same;
          built = refl;
        },
      )

  -- With a code other than OK, and an Error that can be marshalled, the Error is the only detail.
  pub details-err_to_status :
      (src : Err) (h : Heap) (s : Status) (r : IsStatusOf src h s)
      → IsWire (r.result.proto_at r.converted.address)
      → (owed_identity h err_unknown src).0 ≢ 0
      → details s ≡ error_detail (r.result.proto_at r.converted.address) ∷ []
  details-err_to_status src h s r wire not_ok =
      let p : Proto = r.result.proto_at r.converted.address in
      let base : Status =
        new_status p.grpc_code (error_text w.status_code_text r.result (as_err r.converted)) in
      let code_base : code base ≡ (owed_identity h err_unknown src).0 =
        g.code-new_status _ _ ∙ ap (λ (x : ℕ × ℕ × Text). x.0) r.has_identity in
      let (t, made, _, has) =
        g.with_details_ok base p wire (λ zero_code. not_ok (sym code_base ∙ zero_code)) in
      let is_t : s ≡ t = r.built ∙ ap (or_else g w gen err_unknown base) made in
      ap details is_t ∙ has ∙ ap (λ ds. ds ++ error_detail p ∷ []) (g.details-new_status _ _)

  unary_caught-FailsWith :
      {R : Type 0} (o : Outcome (Option R × Option Err)) (resp : Option R) (src : Err)
      → FailsWith o resp src
      → unary_caught g w gen err_unknown o ≡ (resp, some src)
  unfolding catch_panic check_panic
  unary_caught-FailsWith (returned (r, err)) resp src (same, is_src) = rw (same, is_src) refl
  unary_caught-FailsWith (panicked nothing) resp src fails = absurd fails
  unary_caught-FailsWith (panicked (an_error e)) resp src (same, is_src) = rw (same, is_src) refl
  unary_caught-FailsWith (panicked (a_value t)) resp src (same, is_src) = rw (same, is_src) refl

  module _ {I R : Type 0} (next : UnaryHandler I R) (i : I) (h : Heap) (resp : Option R) (src : Err)
      (fails : FailsWith (next i h).1 resp src) where
    -- The result of the middleware for a handler that fails with `src`.
    abbrev pub answer : Heap × Outcome (Option R × Option Err)
    answer = unary_server_middleware g w gen err_unknown next i h

    answer-status :
        (s : Status) (r : IsStatusOf src (next i h).0 s)
        → answer ≡ (r.result, returned (resp, to_err s))
    unfolding unary_server_middleware
    answer-status s r = rw (unary_caught-FailsWith (next i h).1 resp src fails) (
        after_returned (err_to_status g w gen err_unknown src (next i h).0) (to_err s) _
          (ap (λ (x : Heap × Outcome (Option Err)). x.1) r.runs)
        ∙ ap (λ (x : Heap × Outcome (Option Err)). (x.0, returned (resp, to_err s))) r.runs)

    -- For a handler that has returned an error, or has panicked with an error value or a text, which
    -- becomes the error, and whose error has a frame if it has an APIError in its chain, the
    -- middleware returns an error from which grpc reads a status; its code is that of the first
    -- sentinel of the chain, else of the APIError, else of ErrUnknown, where that code is not OK.
    -- The response is the handler's, and nil after a panic.
    pub unary_server_middleware_error :
        IsTraced (next i h).0 src
        → (owed_identity (next i h).0 err_unknown src).0 ≢ 0
        → (h' : Heap) × (e : Err) × (s : Status) × (answer ≡ (h', returned (resp, some e)))
          × (from_error e ≡ some s)
          × (code s ≡ (owed_identity (next i h).0 err_unknown src).0)
    unary_server_middleware_error traced not_ok =
        let (s, r) = err_to_status_total src (next i h).0 traced in
        let (e, is_err) = g.to_err_some s (λ z. not_ok (sym r.has_code ∙ z)) in
        (
          r.result,
          e,
          s,
          answer-status s r ∙ ap (λ x. (r.result, returned (resp, x))) is_err,
          g.from_to_err s e is_err,
          r.has_code,
        )

    -- For such a handler, with a frame on the APIError of its error if there is one, if the code
    -- of the first sentinel of the chain, else of the APIError, else of ErrUnknown is OK, the
    -- failure is lost: the middleware returns the response and a nil error.
    pub unary_server_middleware_lost :
        IsTraced (next i h).0 src
        → (owed_identity (next i h).0 err_unknown src).0 ≡ 0
        → answer.1 ≡ returned (resp, none)
    unary_server_middleware_lost traced is_ok =
        let (s, r) = err_to_status_total src (next i h).0 traced in
        ap (λ (x : Heap × Outcome (Option R × Option Err)). x.1) (answer-status s r)
        ∙ ap (λ x. returned (resp, x)) (g.to_err_ok s (r.has_code ∙ is_ok))
