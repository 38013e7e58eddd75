-- ===== src/Pkerr/Server/NotFound.antt =====
-- The not-found middleware on each kind of response.
use g_rpeakec_go.Prelude.{ℕ, ◌≡◌, refl, ◌∙◌, Bool, true, Option, none, some, [], arith}
use g_rpeakec_go.Errors.{Err, Heap, no_source}
use g_rpeakec_go.Pkerr.Panic.{returned, panicked}
use g_rpeakec_go.Pkerr.Go.{after_returned}
use g_rpeakec_go.Pkerr.ApiError.{World, ApiErr, as_err}
use g_rpeakec_go.Pkerr.Generator.{ErrorGenerator, new_err}
use g_rpeakec_go.Pkerr.Generator.NewErr.{issued_proto, new_err_lem}
use g_rpeakec_go.Pkerr.Server.{UnaryHandler, is_nil_of_zero_value, err_not_found_middleware}

module _ {I R : Type 0} (w : World) (is_nil : R → Option Bool) (err_not_found : ℕ)
    (next : UnaryHandler I R) (i : I) (h h' : Heap) where
  -- A typed nil with a nil error becomes a new APIError of ErrNotFound without a source, made by
  -- the generator, and a nil response.
  pub err_not_found_middleware_nil :
      (gen : ErrorGenerator) (r : R)
      → next i h ≡ (h', returned (some r, none))
      → is_nil r ≡ some true
      → (let out = err_not_found_middleware w is_nil err_not_found (some gen) next i h in
          (out.1
            ≡ returned (
              none,
              some (
                  as_err (record {
                    address = h'.next;
                    made_from = some err_not_found;
                    cause = no_source;
                  })),
            ))
          × (out.0.proto_at h'.next ≡ issued_proto gen w h' err_not_found [] [] no_source))
  unfolding err_not_found_middleware
  err_not_found_middleware_nil gen r ran nil =
      let n = new_err_lem gen w err_not_found [] [] no_source h' in
      let made : ApiErr = record {
        address = h'.next;
        made_from = some err_not_found;
        cause = no_source;
      } in
      let e =
        after_returned {B = Option R × Option Err} (new_err gen w err_not_found [] [] no_source h')
          made (λ m k. (k, returned (none, some (as_err m)))) n.0 in
      rw ran (rw nil (rw e (refl, n.1 h'.next ∙ ground arith)))

  -- The nil interface value with a nil error, which has no type, makes the middleware panic.
  pub err_not_found_middleware_panics :
      (gen : Option ErrorGenerator)
      → next i h ≡ (h', returned (none, none))
      → err_not_found_middleware w is_nil err_not_found gen next i h
        ≡ (h', panicked is_nil_of_zero_value)
  unfolding err_not_found_middleware
  err_not_found_middleware_panics gen ran = rw ran refl
