-- ===== src/Pkclients/Tests.antt =====
-- The theorems on waiting for a server at concrete pings.
use g_rpeakec_go.Prelude.{◌≡◌, refl, inr, none, some, [], ◌∷◌, ◌++◌}
use g_rpeakec_go.Prelude.Text.{codes}
use g_rpeakec_go.Errors.{Err}
use g_rpeakec_go.Errors.Chain.{as_api, errors_is}
use g_rpeakec_go.Pkerr.Status.{StatusApi}
use g_rpeakec_go.Pkerr.Tests.{sample_heap, sample_proto}
use g_rpeakec_go.Pkerr.Tests.SmallStatus.{small_status}
use g_rpeakec_go.Pkclients.{wait_for_grpc_server}
use g_rpeakec_go.Pkclients.Laws.{IsRetried, wait_for_grpc_server_first}

abbrev small : StatusApi
small = small_status sample_proto

-- The status Unavailable, as the small package writes it.
abbrev unavailable : Err
unavailable = Err.foreign 0 (13 ∷ codes "connecting")

unavailable-IsRetried : IsRetried small sample_heap (some unavailable)
unfolding errors_is as_api
unavailable-IsRetried = ((refl, refl), refl, inr ((14, codes "connecting", 0), refl, inr refl))

wait_for_grpc_server_first_example :
    wait_for_grpc_server small sample_heap ((some unavailable ∷ []) ++ none ∷ some unavailable ∷ [])
    ≡ some none
wait_for_grpc_server_first_example =
    wait_for_grpc_server_first small sample_heap (some unavailable ∷ []) none none
      (some unavailable ∷ []) (unavailable-IsRetried, tt) refl
