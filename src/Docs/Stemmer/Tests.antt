-- ===== src/Docs/Stemmer/Tests.antt =====
-- Runs of the stemmer.
use g_rpeakec_go.Prelude.{◌≡◌, ◌≤◌, refl, length}
use g_rpeakec_go.Prelude.Text.{codes}
use g_rpeakec_go.Docs.Stemmer.{stem_word}
use g_rpeakec_go.Docs.Stemmer.Bounds.{stem_word-le}

stem_relational : stem_word (codes "relational") ≡ codes "relat"
unfolding stem_word
stem_relational = refl

stem_hopping : stem_word (codes "hopping") ≡ codes "hop"
unfolding stem_word
stem_hopping = refl

stem_ponies : stem_word (codes "ponies") ≡ codes "poni"
unfolding stem_word
stem_ponies = refl

stem_yellowed : stem_word (codes "yellowed") ≡ codes "yellow"
unfolding stem_word
stem_yellowed = refl

stem_word-le_example : length (stem_word (codes "filing")) ≤ length (codes "filing")
stem_word-le_example = stem_word-le (codes "filing")
