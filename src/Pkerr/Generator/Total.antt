-- ===== src/Pkerr/Generator/Total.antt =====
-- errToAPIErr on every error: it returns, with the right identity and without what the settings
-- hold back.
use g_rpeakec_go.Prelude.{
  ℕ, ◌≡◌, ◌≢◌, ◌∙◌, sym, refl, ap, inl, inr, Bool, true, false, Option, none, some, [], ◌∷◌,
  if◌then◌else◌, Option-cases,
}
use g_rpeakec_go.Prelude.Text.{Text, codes, text_eq, replace}
use g_rpeakec_go.Errors.{
  Err, wrapped, panic_err, sentinel, api, client, service, map_failed, Source, no_source, source,
  Sentinel, Proto, TraceInfo, Heap,
}
use g_rpeakec_go.Errors.Chain.{as_sentinel, as_api, Found, found_api, found_sentinel}
use g_rpeakec_go.Errors.Show.{error_text, sentinel_text}
use g_rpeakec_go.Pkerr.Panic.{Outcome, returned}
use g_rpeakec_go.Pkerr.ApiError.{World, ApiErr}
use g_rpeakec_go.Pkerr.Go.{after, run_eq, ◌>>◌, return}
use g_rpeakec_go.Pkerr.Generator.{
  ErrorGenerator, new_err, err_to_api_err_convert_type, err_to_api_err, add_context,
}
use g_rpeakec_go.Pkerr.Generator.Settings.{snoc_of_ne_nil}
use g_rpeakec_go.Pkerr.Generator.NewErr.{new_err_lem}
use g_rpeakec_go.Pkerr.Generator.Laws.{
  Converts, our_part, add_frame_context, frame, issued_heap, convert_sentinel, convert_unknown,
  convert_api,
}

-- The errors whose APIError, if they have one, has a trace with a frame.
abbrev pub IsTraced : Heap → Err → Type 0
IsTraced h src =
    (p : ℕ) (s : Option ℕ) (inner : Source)
    → as_api src ≡ some (found_api p s inner)
    → (h.proto_at p).trace ≢ []

-- The gRPC code, code and issuer that an Error and a sentinel stand for.
abbrev pub identity : Proto → ℕ × ℕ × Text
identity v = (v.grpc_code, v.code, v.issuer)

abbrev pub sentinel_identity : Sentinel → ℕ × ℕ × Text
sentinel_identity s = (s.grpc_code, s.code, s.issuer)

-- The identity that the client is owed: that of the first sentinel of the chain, else that of the
-- APIError, else that of ErrUnknown.
abbrev owed_by : Heap → ℕ → Option ℕ → Option Found → ℕ × ℕ × Text
owed_by h err_unknown (some a) found = sentinel_identity (h.sentinel_at a)
owed_by h err_unknown none none = sentinel_identity (h.sentinel_at err_unknown)
owed_by h err_unknown none (some (found_api p _ _)) = identity (h.proto_at p)
owed_by h err_unknown none (some (found_sentinel a)) = sentinel_identity (h.sentinel_at a)

abbrev pub owed_identity : Heap → ℕ → Err → ℕ × ℕ × Text
owed_identity h err_unknown src = owed_by h err_unknown (as_sentinel src) (as_api src)

-- Where errors.As would fill an APIError from a sentinel, there is a sentinel in the chain.
as_api-found_sentinel :
    (src : Err) (a : ℕ) → as_api src ≡ some (found_sentinel a) → as_sentinel src ≢ none
unfolding as_api as_sentinel
as_api-found_sentinel (sentinel b) a e q = cc
as_api-found_sentinel (wrapped _ src) a e q = as_api-found_sentinel src a e q
as_api-found_sentinel (panic_err src) a e q = as_api-found_sentinel src a e q
as_api-found_sentinel (client src) a e q = as_api-found_sentinel src a e q
as_api-found_sentinel (service _ src) a e q = as_api-found_sentinel src a e q
as_api-found_sentinel (map_failed src _) a e q = as_api-found_sentinel src a e q
as_api-found_sentinel (api _ _ no_source) a e q = cc
as_api-found_sentinel (api _ _ (source src)) a e q = cc
as_api-found_sentinel src a e q = cc

module _ (gen : ErrorGenerator) (w : World) (err_unknown : ℕ) (src : Err) (h : Heap) where
  -- What a conversion owes: it returns an APIError with the owed identity; the source text is
  -- held back unless it is to be sent.
  pub record IsOwed (e : ApiErr) (v : Proto) : Type 0 where
    pub converts : Converts e v h (err_to_api_err gen w err_unknown src h)
    pub same_identity : identity v ≡ owed_identity h err_unknown src
    pub holds_source : v.source_error ≡ (if gen.send_source then v.source_error else [])
    pub holds_type : v.source_type ≡ (if gen.send_source then v.source_type else [])

  if_twice :
      (b : Bool) (x : Text) → (if b then x else []) ≡ (if b then (if b then x else []) else [])
  if_twice true x = refl
  if_twice false x = refl

  -- errToAPIErr never panics on an error whose APIError, if any, has a frame; the Error that it
  -- yields has the gRPC code, code and issuer of the first sentinel of the chain, else of the
  -- APIError, else of ErrUnknown; its source text and type are empty unless they are to be sent;
  -- no other Error and no sentinel changes.
  pub err_to_api_err_total : IsTraced h src → (e : ApiErr) × (v : Proto) × IsOwed e v
  err_to_api_err_total traced = elim (Option-cases (as_sentinel src)) [
    | inr (a, is_sentinel) ↦ (
      _,
      _,
      record {
        converts = convert_sentinel gen w err_unknown src h a is_sentinel;
        same_identity = rw is_sentinel;
        holds_source = if_twice gen.send_source _;
        holds_type = if_twice gen.send_source _;
      },
    )
    | inl no_sentinel ↦ by_api no_sentinel (as_api src) refl
  ]
    where
      by_api :
          as_sentinel src ≡ none
          → (found : Option Found) → as_api src ≡ found
          → (e : ApiErr) × (v : Proto) × IsOwed e v
      by_api no_sentinel none no_api = (
        _,
        _,
        record {
          converts = convert_unknown gen w err_unknown src h no_sentinel no_api;
          same_identity = rw (no_sentinel, no_api);
          holds_source = if_twice gen.send_source _;
          holds_type = if_twice gen.send_source _;
        },
      )
      by_api no_sentinel (some (found_api p s inner)) is_api =
          let (pre, t, e) = snoc_of_ne_nil _ (traced p s inner is_api) in
          (
            _,
            _,
            record {
              converts = convert_api gen w err_unknown src h p s inner pre t no_sentinel is_api e;
              same_identity = rw (no_sentinel, is_api);
              holds_source = if_twice gen.send_source _;
              holds_type = if_twice gen.send_source _;
            },
          )
      by_api no_sentinel (some (found_sentinel a)) is_api =
          absurd (as_api-found_sentinel src a is_api no_sentinel)

new_err_ignores_context :
    (gen : ErrorGenerator) (w : World) (a : ℕ) (src : Source) (h : Heap)
    → new_err (record gen { send_context = true }) w a [] [] src h
      ≡ new_err (record gen { send_context = false }) w a [] [] src h
new_err_ignores_context gen w a src h =
    let on = new_err_lem (record gen { send_context = true }) w a [] [] src h in
    let off = new_err_lem (record gen { send_context = false }) w a [] [] src h in
    run_eq _ _ (on.0 ∙ sym off.0) (λ b. on.1 b ∙ sym (off.1 b)) (on.2 ∙ sym off.2)
      (on.3 ∙ sym off.3)

context_of :
    (part whole : Text) (t : TraceInfo)
    → part ≢ []
    → (add_frame_context part whole t).additional_context ≡ replace part (codes "[error]") whole
context_of [] whole t not_empty = absurd (not_empty refl)
context_of (c ∷ part) whole t not_empty = refl

-- The conversion is the same with sendContext and without.
same_with_context :
    (gen : ErrorGenerator) (w : World) (err_unknown : ℕ) (src : Err) (h : Heap) (a : ℕ)
    → as_sentinel src ≡ some a
    → err_to_api_err (record gen { send_context = true }) w err_unknown src h
      ≡ err_to_api_err (record gen { send_context = false }) w err_unknown src h
unfolding err_to_api_err err_to_api_err_convert_type
same_with_context gen w err_unknown src h a e =
    let finish : Heap × Outcome ApiErr → Heap × Outcome ApiErr = λ r.
      after
        (after {A = ApiErr} {B = ApiErr × Text} r (λ made h'. (
          h',
          returned (
            made,
            our_part (error_text w.status_code_text h' (sentinel a))
                (error_text w.status_code_text h' src),
          ),
        )))
        (λ made. add_context w made.0 made.1 src >> return made.0) in
    rw e (ap finish (new_err_ignores_context gen w a (source src) h))

-- The setting sendContext changes nothing for an error with a sentinel in its chain whose text is
-- neither empty nor the whole text of the error: with the setting and without it errToAPIErr
-- returns the same Error, whose only frame has as its context the text of the error with the
-- sentinel's text replaced. So the context is sent even where the generator was told not to.
pub send_context_ignored :
    (gen : ErrorGenerator) (w : World) (err_unknown : ℕ) (src : Err) (h : Heap) (a : ℕ)
    (whole : Text)
    → as_sentinel src ≡ some a
    → error_text w.status_code_text
        (issued_heap (record gen { send_context = false }) w err_unknown src h a [])
        src
      ≡ whole
    → sentinel_text (h.sentinel_at a) ≢ []
    → text_eq (sentinel_text (h.sentinel_at a)) whole ≡ false
    → let off = err_to_api_err (record gen { send_context = false }) w err_unknown src h in
      (err_to_api_err (record gen { send_context = true }) w err_unknown src h ≡ off)
      × ((e : ApiErr) × (t : TraceInfo) × (off.1 ≡ returned e)
          × ((off.0.proto_at e.address).trace ≡ t ∷ [])
          × (t.additional_context
              ≡ replace (sentinel_text (h.sentinel_at a)) (codes "[error]") whole))
send_context_ignored gen w err_unknown src h a whole is_sentinel is_whole not_empty differs =
    let off : ErrorGenerator = record gen { send_context = false } in
    let c = convert_sentinel off w err_unknown src h a is_sentinel in
    let text = sentinel_text (h.sentinel_at a) in
    (
      same_with_context gen w err_unknown src h a is_sentinel,
      (
        _,
        add_frame_context (our_part text whole) whole (frame off w src h),
        c.returns,
        ap (λ (v : Proto). v.trace) c.holds ∙ rw is_whole refl,
        rw differs (context_of text whole (frame off w src h) not_empty),
      ),
    )
