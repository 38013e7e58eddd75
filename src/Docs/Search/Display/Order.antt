-- ===== src/Docs/Search/Display/Order.antt =====
-- The order in which the results are shown.
use mathlib.Core.List.{Perm}
use mathlib.Core.List.Perm
use g_rpeakec_go.Prelude.{List, [], ◌∷◌, All, arith}
use g_rpeakec_go.Prelude.Int.{◌≤ℤ◌}
use g_rpeakec_go.Prelude.Text.{Text}
use g_rpeakec_go.Docs.Search.{Found}
use g_rpeakec_go.Docs.Search.Display.{
  Comparison, before, same, after, placed, compare_results, insert_result, sort_results,
}

module _ (to_lower : Text → Text) where
  -- What a comparison says of the two scores.
  abbrev Agrees : Found → Found → Comparison → Type 0
  Agrees a b before = a.score ≤ℤ b.score
  Agrees a b same = b.score ≤ℤ a.score
  Agrees a b after = b.score ≤ℤ a.score

  compare_results-Agrees : (a b : Found) → Agrees a b (compare_results to_lower a b)
  unfolding compare_results
  compare_results-Agrees a b = ground arith

  -- No result has a higher score than a later one.
  abbrev pub Ascends : List Found → Type 0
  Ascends [] = Unit
  Ascends (r ∷ rs) = All (λ s. r.score ≤ℤ s.score) rs × Ascends rs

  All-lower :
      (r s : Found) (rs : List Found)
      → r.score ≤ℤ s.score
      → All (λ t. s.score ≤ℤ t.score) rs
      → All (λ t. r.score ≤ℤ t.score) rs
  All-lower r s [] le h = tt
  All-lower r s (t ∷ rs) le (here, h) = (omega (arith, le, here), All-lower r s rs le h)

  placed-below :
      (q r s : Found) (rs deeper : List Found) (c : Comparison)
      → q.score ≤ℤ r.score
      → All (λ t. q.score ≤ℤ t.score) (s ∷ rs)
      → All (λ t. q.score ≤ℤ t.score) deeper
      → All (λ t. q.score ≤ℤ t.score) (placed r s rs deeper c)
  placed-below q r s rs deeper before le (here, h) d = (here, d)
  placed-below q r s rs deeper same le h d = (le, h)
  placed-below q r s rs deeper after le h d = (le, h)

  insert_result-below :
      (q r : Found) (rs : List Found)
      → q.score ≤ℤ r.score
      → All (λ t. q.score ≤ℤ t.score) rs
      → All (λ t. q.score ≤ℤ t.score) (insert_result to_lower r rs)
  unfolding insert_result
  insert_result-below q r [] le h = (le, tt)
  insert_result-below q r (s ∷ rs) le (here, h) =
      placed-below q r s rs _ (compare_results to_lower s r) le (here, h)
        (insert_result-below q r rs le h)

  placed-Ascends :
      (r s : Found) (rs deeper : List Found) (c : Comparison)
      → Agrees s r c
      → Ascends (s ∷ rs)
      → (s.score ≤ℤ r.score → All (λ t. s.score ≤ℤ t.score) deeper)
      → Ascends deeper
      → Ascends (placed r s rs deeper c)
  placed-Ascends r s rs deeper before le (below, h) deep d = (deep le, d)
  placed-Ascends r s rs deeper same le (below, h) deep d =
      ((le, All-lower r s rs le below), (below, h))
  placed-Ascends r s rs deeper after le (below, h) deep d =
      ((le, All-lower r s rs le below), (below, h))

  insert_result-Ascends :
      (r : Found) (rs : List Found) → Ascends rs → Ascends (insert_result to_lower r rs)
  unfolding insert_result
  insert_result-Ascends r [] h = (tt, tt)
  insert_result-Ascends r (s ∷ rs) (below, h) =
      placed-Ascends r s rs _ (compare_results to_lower s r) (compare_results-Agrees s r) (below, h)
        (λ le. insert_result-below s r rs le below) (insert_result-Ascends r rs h)

  placed-Perm :
      (r s : Found) (rs deeper : List Found) (c : Comparison)
      → Perm deeper (r ∷ rs)
      → Perm (placed r s rs deeper c) (r ∷ s ∷ rs)
  placed-Perm r s rs deeper before d = Perm.trans (Perm.cons s d) (Perm.swap r s rs)
  placed-Perm r s rs deeper same d = Perm.refl (r ∷ s ∷ rs)
  placed-Perm r s rs deeper after d = Perm.refl (r ∷ s ∷ rs)

  insert_result-Perm : (r : Found) (rs : List Found) → Perm (insert_result to_lower r rs) (r ∷ rs)
  unfolding insert_result
  insert_result-Perm r [] = Perm.refl (r ∷ [])
  insert_result-Perm r (s ∷ rs) =
      placed-Perm r s rs _ (compare_results to_lower s r) (insert_result-Perm r rs)

  sort_results-Perm : (rs : List Found) → Perm (sort_results to_lower rs) rs
  unfolding sort_results
  sort_results-Perm [] = Perm.refl []
  sort_results-Perm (r ∷ rs) =
      Perm.trans (insert_result-Perm r (sort_results to_lower rs))
        (Perm.cons r (sort_results-Perm rs))

  sort_results-Ascends : (rs : List Found) → Ascends (sort_results to_lower rs)
  unfolding sort_results
  sort_results-Ascends [] = tt
  sort_results-Ascends (r ∷ rs) =
      insert_result-Ascends r (sort_results to_lower rs) (sort_results-Ascends rs)

  -- Sorting keeps the results, each as often, and puts them in the order of their scores, the lowest
  -- first, so that the display, which takes them from the end, shows the best first.
  pub sort_results_lem :
      (rs : List Found) → Perm (sort_results to_lower rs) rs × Ascends (sort_results to_lower rs)
  sort_results_lem rs = (sort_results-Perm rs, sort_results-Ascends rs)
