-- ===== src/Pkerr/Generator/Laws.antt =====
-- What the generator's settings do to the errors that it makes and converts.
use g_rpeakec_go.Prelude.{
  ℕ, ◌≡◌, ◌≢◌, refl, ap, ◌∙◌, Option, none, some, List, [], ◌∷◌, ◌++◌, if◌then◌else◌, arith,
}
use g_rpeakec_go.Prelude.Text.{Text, codes, text_eq, replace}
use g_rpeakec_go.Errors.{Err, Source, source, Sentinel, Proto, TraceInfo, Heap}
use g_rpeakec_go.Errors.Chain.{as_sentinel, as_api, found_api}
use g_rpeakec_go.Errors.Show.{error_text, sentinel_text}
use g_rpeakec_go.Pkerr.Panic.{Outcome, returned}
use g_rpeakec_go.Pkerr.ApiError.{World, ApiErr, as_err}
use g_rpeakec_go.Pkerr.Go.{◌>>◌, return, after_returned}
use g_rpeakec_go.Pkerr.Generator.Settings.{write_last_trace_lem, apply_settings_lem, settled}
use g_rpeakec_go.Pkerr.Generator.{
  ErrorGenerator, set_frame, write_last_trace, apply_settings, new_err, err_to_api_err_convert_type,
  err_to_api_err, add_context, apply_to_found,
}
use g_rpeakec_go.Pkerr.Generator.NewErr.{issued_proto, new_err_lem}

-- The frame with the context that errToAPIErr writes: nothing, if no part of the text is ours.
abbrev pub add_frame_context : Text → Text → TraceInfo → TraceInfo
add_frame_context [] whole t = t
add_frame_context (c ∷ part) whole t = record t {
  additional_context = replace (c ∷ part) (codes "[error]") whole;
}

-- The part of `whole` that is ours.
abbrev pub our_part : Text → Text → Text
our_part part whole = if text_eq part whole then [] else part

pub record Converts (e : ApiErr) (v : Proto) (h : Heap) (r : Heap × Outcome ApiErr) : Type 0 where
  pub returns : r.1 ≡ returned e
  pub holds : r.0.proto_at e.address ≡ v
  pub keeps : (b : ℕ) → b ≢ e.address → r.0.proto_at b ≡ h.proto_at b
  pub keeps_sentinels : r.0.sentinel_at ≡ h.sentinel_at

abbrev pub set_trace : Proto → List TraceInfo → Proto
set_trace v ts = record v { trace = ts }

module _ (gen : ErrorGenerator) (w : World) (src : Err) (h : Heap) where
  -- What is done after the conversion.
  add_context_lem :
      (e : ApiErr) (part : Text) (pre : List TraceInfo) (t : TraceInfo)
      → (h.proto_at e.address).trace ≡ pre ++ t ∷ []
      → Converts e
          (set_trace
            (h.proto_at e.address)
            (pre ++ add_frame_context part (error_text w.status_code_text h src) t ∷ []))
          h
          ((add_context w e part src >> return e) h)
  unfolding add_context
  add_context_lem e [] pre t traced = record {
    returns = refl;
    holds = ap (set_trace (h.proto_at e.address)) traced;
    keeps = λ b ne. refl;
    keeps_sentinels = refl;
  }
  add_context_lem e (c ∷ part) pre t traced =
      let f = add_frame_context (c ∷ part) (error_text w.status_code_text h src) in
      let write = write_last_trace_lem e.address h pre t traced f in
      rw (after_returned (write_last_trace e.address f h) tt (λ _. return e) write.returns)
        (record {
          returns = refl;
          holds = ground (arith, write.writes e.address);
          keeps = λ b ne. ground (arith, write.writes b);
          keeps_sentinels = write.keeps_sentinels;
        })

  abbrev pub frame : TraceInfo
  frame = record {
    app_name = gen.app_name;
    app_host = gen.app_host;
    stack_trace = if gen.add_stack_trace then w.stack else [];
    additional_context = [];
  }

module _ (gen : ErrorGenerator) (w : World) (err_unknown : ℕ) (src : Err) (h : Heap) where
  -- The heap after NewErr: in it the texts of the error and of its part are compared.
  abbrev pub issued_heap : ℕ → Text → Heap
  issued_heap a message = (new_err gen w a message [] (source src) h).0

  -- `err_to_api_err` after a conversion that made the error by NewErr.
  issued_then_context :
      (a : ℕ) (message part : Text)
      → err_to_api_err_convert_type gen w err_unknown src h ≡ (
        issued_heap a message,
        returned (record { address = h.next; made_from = some a; cause = source src }, part),
      )
      → Converts
          (record { address = h.next; made_from = some a; cause = source src })
          (set_trace (issued_proto gen w h a message [] (source src)) (
            add_frame_context part
              (error_text w.status_code_text (issued_heap a message) src)
              (frame gen w src h)
            ∷ []))
          h
          (err_to_api_err gen w err_unknown src h)
  unfolding err_to_api_err
  issued_then_context a message part converted =
      let e : ApiErr = record { address = h.next; made_from = some a; cause = source src } in
      let n = new_err_lem gen w a message [] (source src) h in
      let here : (issued_heap a message).proto_at h.next
          ≡ issued_proto gen w h a message [] (source src) =
        n.1 h.next ∙ ground arith in
      let c =
        add_context_lem gen w src (issued_heap a message) e part [] (frame gen w src h)
          (ap (λ (v : Proto). v.trace) here) in
      rw converted (record {
        returns = c.returns;
        holds =
            c.holds
            ∙ ap
                (λ (v : Proto). set_trace v (
                  add_frame_context part (error_text w.status_code_text (issued_heap a message) src)
                    (frame gen w src h)
                  ∷ []))
                here;
        keeps = λ b ne. c.keeps b ne ∙ n.1 b ∙ ground arith;
        keeps_sentinels = c.keeps_sentinels ∙ n.2;
      })

  -- An error with a sentinel in its chain becomes a new APIError with the sentinel's identity and
  -- one frame. The context of the frame is the text of the error with the sentinel's own text
  -- replaced, unless the two are the same; the setting sendContext plays no part in it.
  pub convert_sentinel :
      (a : ℕ)
      → as_sentinel src ≡ some a
      → Converts
          (record { address = h.next; made_from = some a; cause = source src })
          (set_trace (issued_proto gen w h a [] [] (source src)) (
            add_frame_context
              (our_part
                (sentinel_text (h.sentinel_at a))
                (error_text w.status_code_text (issued_heap a []) src))
              (error_text w.status_code_text (issued_heap a []) src)
              (frame gen w src h)
            ∷ []))
          h
          (err_to_api_err gen w err_unknown src h)
  unfolding err_to_api_err_convert_type error_text
  convert_sentinel a e =
      let made : ApiErr = record { address = h.next; made_from = some a; cause = source src } in
      let n = new_err_lem gen w a [] [] (source src) h in
      let whole : Text = error_text w.status_code_text (issued_heap a []) src in
      issued_then_context a [] (our_part (sentinel_text (h.sentinel_at a)) whole) (
        rw e (
          after_returned (new_err gen w a [] [] (source src) h) made _ n.0
          ∙ ap
              (λ (at : ℕ → Sentinel).
                (issued_heap a [], Outcome.returned (made, our_part (sentinel_text (at a)) whole)))
              n.2))

  -- An error with neither a sentinel nor an APIError in its chain becomes an unknown error, whose
  -- message holds the text of the error, with one frame that has no context.
  pub convert_unknown :
      as_sentinel src ≡ none
      → as_api src ≡ none
      → Converts
          (record { address = h.next; made_from = some err_unknown; cause = source src })
          (issued_proto gen w h err_unknown (error_text w.status_code_text h src) [] (source src))
          h
          (err_to_api_err gen w err_unknown src h)
  unfolding err_to_api_err_convert_type
  convert_unknown no_sentinel no_api =
      let made : ApiErr = record {
        address = h.next;
        made_from = some err_unknown;
        cause = source src;
      } in
      let message = error_text w.status_code_text h src in
      let n = new_err_lem gen w err_unknown message [] (source src) h in
      issued_then_context err_unknown message [] (
        rw no_sentinel (
          rw no_api
            (after_returned (new_err gen w err_unknown message [] (source src) h) made _ n.0)))

  module _ (p : ℕ) (s : Option ℕ) (inner : Source) (pre : List TraceInfo) (t : TraceInfo) where
    abbrev found : ApiErr
    found = record { address = p; made_from = s; cause = inner }

    abbrev pub settled_heap : Heap
    settled_heap = (apply_settings gen p h).0

    abbrev pub settled_part : Text
    settled_part =
        our_part (error_text w.status_code_text settled_heap (as_err found))
          (error_text w.status_code_text settled_heap src)

    -- An APIError in the chain, with no sentinel above or below it, stays the same APIError: the
    -- settings are applied to its last frame, earlier frames stay, and the context of the last
    -- frame is replaced where the error had been wrapped.
    pub convert_api :
        as_sentinel src ≡ none
        → as_api src ≡ some (found_api p s inner)
        → (h.proto_at p).trace ≡ pre ++ t ∷ []
        → Converts found
            (set_trace (settled gen (h.proto_at p) pre t) (
              pre
              ++ add_frame_context settled_part
                  (error_text w.status_code_text settled_heap src)
                  (set_frame gen t)
                ∷ []))
            h
            (err_to_api_err gen w err_unknown src h)
    unfolding err_to_api_err err_to_api_err_convert_type
    convert_api no_sentinel is_api traced =
        let m = apply_settings_lem gen p h pre t traced in
        let here : settled_heap.proto_at p ≡ settled gen (h.proto_at p) pre t =
          m.writes p ∙ ground arith in
        let c =
          add_context_lem gen w src settled_heap found settled_part pre (set_frame gen t)
            (ap (λ (v : Proto). v.trace) here) in
        let converted : apply_to_found gen w found src h
            ≡ (settled_heap, returned (found, settled_part)) =
          after_returned (apply_settings gen p h) tt _ m.returns in
        rw no_sentinel (
          rw is_api (
            rw converted (record {
              returns = c.returns;
              holds =
                  c.holds
                  ∙ ap
                      (λ (v : Proto). set_trace v (
                        pre
                        ++ add_frame_context settled_part
                            (error_text w.status_code_text settled_heap src) (set_frame gen t)
                          ∷ []))
                      here;
              keeps = λ b ne. c.keeps b ne ∙ m.writes b ∙ ground arith;
              keeps_sentinels = c.keeps_sentinels ∙ m.keeps_sentinels;
            })))
