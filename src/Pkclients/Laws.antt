-- ===== src/Pkclients/Laws.antt =====
-- When waiting for a server ends, and with what.
use g_rpeakec_go.Prelude.{
  ◌≢◌, ◌≡◌, ◌↔◌, ◌⊎◌, inl, inr, refl, sym, ◌∙◌, Bool-cases, true, false, Option, none, some, List,
  [], ◌∷◌, ◌++◌, All, arith,
}
use g_rpeakec_go.Errors.{Err, Heap, canceled, deadline_exceeded}
use g_rpeakec_go.Errors.Chain.{as_api, errors_is, Found}
use g_rpeakec_go.Pkerr.Status.{StatusApi}
use g_rpeakec_go.Pkclients.{
  retry_ping, wait_for_grpc_server, is_context_error, check_status, check_api, is_some_found,
}

module _ (g : StatusApi) (h : Heap) where
  open g use {Status, from_error, code}

  check_status-retries_iff :
      (err : Err) (found : Option Status)
      → ((check_status g h err found).1 ≡ true)
        ↔ ((found ≡ none) ⊎ ((s : Status) × (found ≡ some s) × ((code s ≡ 5) ⊎ (code s ≡ 14))))
  unfolding check_status
  check_status-retries_iff err none = (λ _. inl refl, λ _. refl)
  check_status-retries_iff err (some s) = (to, from)
    where
      to :
          (check_status g h err (some s)).1 ≡ true
          → (some s ≡ none) ⊎ ((t : Status) × (some s ≡ some t) × ((code t ≡ 5) ⊎ (code t ≡ 14)))
      to e = inr (s, refl, ground (arith, e))

      from :
          (some s ≡ none) ⊎ ((t : Status) × (some s ≡ some t) × ((code t ≡ 5) ⊎ (code t ≡ 14)))
          → (check_status g h err (some s)).1 ≡ true
      from (inl q) = cc q
      from (inr (t, same, codes)) = ground (arith, same, codes)

  check_api-retries_iff :
      (err : Err) (found : Option Found)
      → ((check_api g h err (is_some_found g h found)).1 ≡ true)
        ↔ ((found ≡ none) × ((check_status g h err (from_error err)).1 ≡ true))
  unfolding check_api
  check_api-retries_iff err none = (λ e. (refl, e), λ (_, e). e)
  check_api-retries_iff err (some f) = (λ e. cc e, λ (e, _). cc e)

  -- A failed ping is tried again exactly when its error is neither of a context nor an APIError,
  -- and has no status or one with the code NotFound or Unavailable.
  pub retry_ping-retries_iff :
      (err : Err)
      → ((retry_ping g h (some err)).1 ≡ true) ↔ (
          (is_context_error g h err ≡ false)
          × (as_api err ≡ none)
          × ((from_error err ≡ none)
              ⊎ ((s : Status) × (from_error err ≡ some s) × ((code s ≡ 5) ⊎ (code s ≡ 14)))))
  unfolding retry_ping
  retry_ping-retries_iff err =
      let a = check_api-retries_iff err (as_api err) in
      let st = check_status-retries_iff err (from_error err) in
      elim (Bool-cases (is_context_error g h err)) [
        | inl ctx ↦ (λ e. cc (rw ctx at e), λ e. cc (sym ctx ∙ e.0))
        | inr no_ctx ↦ rw no_ctx (λ e. (refl, (a.0 e).0, st.0 (a.0 e).1), λ e. a.1 (e.1, st.1 e.2))
      ]

  -- The error is of no context.
  abbrev pub IsNoContext : Err → Type 0
  IsNoContext err = (errors_is h err deadline_exceeded ≡ false) × (errors_is h err canceled ≡ false)

  -- A ping that is to be made again: its error is neither of a context nor an APIError, and has no
  -- status, or the code NotFound or Unavailable.
  abbrev pub IsRetried : Option Err → Type 0
  IsRetried none = ⊥
  IsRetried (some err) =
      IsNoContext err
      × (as_api err ≡ none)
      × ((from_error err ≡ none)
          ⊎ ((s : Status) × (from_error err ≡ some s) × ((code s ≡ 5) ⊎ (code s ≡ 14))))

  -- A ping that is the last, with what is returned: a success; the error of a context; an APIError,
  -- which a server has sent; the status DeadlineExceeded; any other status, which a server has sent.
  abbrev pub EndsWith : Option Err → Option Err → Type 0
  EndsWith none r = r ≡ none
  EndsWith (some err) r =
      (((errors_is h err deadline_exceeded ≡ true) ⊎ (errors_is h err canceled ≡ true))
        × (r ≡ some err))
      ⊎ (IsNoContext err × ((f : Found) × (as_api err ≡ some f)) × (r ≡ none))
      ⊎ (IsNoContext err
          × (as_api err ≡ none)
          × ((s : Status) × (from_error err ≡ some s) × (code s ≡ 4))
          × (r ≡ some err))
      ⊎ (IsNoContext err
          × (as_api err ≡ none)
          × ((s : Status) × (from_error err ≡ some s) × (code s ≢ 4) × (code s ≢ 5) × (code s ≢ 14))
          × (r ≡ none))

  retry_ping-IsRetried : (ping : Option Err) → IsRetried ping → (retry_ping g h ping).1 ≡ true
  retry_ping-IsRetried none none_retried = absurd none_retried
  retry_ping-IsRetried (some err) ((no_deadline, no_cancel), no_api, status) =
      (retry_ping-retries_iff err).1 (rw (no_deadline, no_cancel) refl, no_api, status)

  retry_ping-EndsWith : (ping r : Option Err) → EndsWith ping r → retry_ping g h ping ≡ (r, false)
  unfolding retry_ping check_api check_status
  retry_ping-EndsWith none r is_none = rw is_none refl
  retry_ping-EndsWith (some err) r (inl (inl deadline, same)) = rw (deadline, same) refl
  retry_ping-EndsWith (some err) r (inl (inr cancelled, same)) =
      let ctx : is_context_error g h err ≡ true = ground (arith, cancelled) in rw (ctx, same) refl
  retry_ping-EndsWith (some err) r (inr (inl ((no_deadline, no_cancel), (f, is_api), same))) =
      rw (no_deadline, no_cancel, is_api, same) refl
  retry_ping-EndsWith (some err) r
        (inr (inr (inl ((no_deadline, no_cancel), no_api, (s, has, is_deadline), same)))) =
      rw (no_deadline, no_cancel, no_api, has, same) ground (arith, is_deadline)
  retry_ping-EndsWith (some err) r
        (inr (inr (inr ((no_deadline, no_cancel), no_api, (s, has, not4, not5, not14), same)))) =
      rw (no_deadline, no_cancel, no_api, has, same) ground (arith, not4, not5, not14)

  -- Pings whose error is of no context and no APIError, and has no status or the code NotFound or
  -- Unavailable, are made again. Waiting ends with the first other ping, whatever would come after
  -- it: with nil if that succeeds, gives an APIError or a status of any other code but
  -- DeadlineExceeded, and else with its error.
  pub wait_for_grpc_server_first :
      (before : List (Option Err)) (ping r : Option Err) (later : List (Option Err))
      → All IsRetried before
      → EndsWith ping r
      → wait_for_grpc_server g h (before ++ ping ∷ later) ≡ some r
  unfolding wait_for_grpc_server
  wait_for_grpc_server_first [] ping r later retried ends =
      rw (retry_ping-EndsWith ping r ends) refl
  wait_for_grpc_server_first (b ∷ before) ping r later (retried, more) ends =
      rw (retry_ping-IsRetried b retried) (wait_for_grpc_server_first before ping r later more ends)
