-- ===== src/Docs/Words/Tests.antt =====
-- Runs of splitQuery.
use g_rpeakec_go.Prelude.{◌≡◌, refl, [], ◌∷◌}
use g_rpeakec_go.Prelude.Text.{Text, codes}
use g_rpeakec_go.Docs.Words.{split_query}
use g_rpeakec_go.Docs.Words.Laws.{nonempty, pieces, split_query_lem}

abbrev go_query : Text
go_query = codes "go, gRPC  Server"

split_query_runs : split_query go_query ≡ codes "go" ∷ codes "gRPC" ∷ codes "Server" ∷ []
unfolding split_query
split_query_runs = refl

split_query_lem_example : split_query go_query ≡ nonempty (pieces go_query)
split_query_lem_example = split_query_lem go_query
