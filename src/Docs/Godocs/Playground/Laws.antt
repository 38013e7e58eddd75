-- ===== src/Docs/Godocs/Playground/Laws.antt =====
-- A playground is made once.
use g_rpeakec_go.Prelude.{
  ℕ, zero, suc, ◌≡◌, refl, Bool, true, false, not, List, [], ◌∷◌, if◌then◌else◌, Bool-cases, inl,
  inr, arith,
}
use g_rpeakec_go.Docs.Godocs.Playground.{
  Dropdown, new_dropdown, click_playground, click_page, Click, on_button, on_page, run_clicks,
  setup_inline_playground, click_example, click_times,
}

-- The button is active just when the playground is shown, which is when the second handler has the
-- turn, and a playground that is set up has been made once.
pub record IsSteady (d : Dropdown) : Type 0 where
  same : d.active ≡ d.shown
  turn : d.first_turn ≡ not d.active
  once : d.made ≡ (if d.setup then 1 else 0)

click_playground-IsSteady : (d : Dropdown) → IsSteady d → IsSteady (click_playground d)
unfolding click_playground
click_playground-IsSteady d ok = elim (Bool-cases d.first_turn) [
  | inl e ↦ rw e (record { same = refl; turn = refl; once = made_once d.setup d.made ok.once })
  | inr e ↦ rw e (record { same = refl; turn = refl; once = ok.once })
]
  where
    made_once : (b : Bool) (n : ℕ) → n ≡ (if b then 1 else 0) → (if b then n else suc n) ≡ 1
    made_once true n e = e
    made_once false n e = omega (arith, e)

click_page-IsSteady : (d : Dropdown) → IsSteady d → IsSteady (click_page d)
unfolding click_page
click_page-IsSteady d ok = go d.active
  where
    go : (is_open : Bool) → IsSteady (if is_open then click_playground d else d)
    go true = click_playground-IsSteady d ok
    go false = ok

run_clicks-IsSteady :
    (clicks : List Click) (d : Dropdown) → IsSteady d → IsSteady (run_clicks clicks d)
unfolding run_clicks
run_clicks-IsSteady [] d ok = ok
run_clicks-IsSteady (on_button ∷ clicks) d ok =
    run_clicks-IsSteady clicks (click_playground d) (click_playground-IsSteady d ok)
run_clicks-IsSteady (on_page ∷ clicks) d ok =
    run_clicks-IsSteady clicks (click_page d) (click_page-IsSteady d ok)

-- Whatever is clicked, the button or the page, and however often, the playground is shown just when
-- its button is active, and it is made once at most, on its first opening.
pub run_clicks-new_dropdown : (clicks : List Click) → IsSteady (run_clicks clicks new_dropdown)
run_clicks-new_dropdown clicks =
    run_clicks-IsSteady clicks new_dropdown (record { same = refl; turn = refl; once = refl })

-- An example of the page is set up once: at once if it is visible, and otherwise by the first click.
pub setup_inline_playground-once :
    (visible : Bool) (n : ℕ) → (click_times (suc n) (setup_inline_playground visible)).made ≡ 1
unfolding setup_inline_playground click_example
setup_inline_playground-once true n = stays n
  where
    stays : (n : ℕ) → (click_times n (record { waits = false; built = false; made = 1 })).made ≡ 1
    stays zero = refl
    stays (suc n) = stays n
setup_inline_playground-once false n = stays n
  where
    stays : (n : ℕ) → (click_times n (record { waits = true; built = true; made = 1 })).made ≡ 1
    stays zero = refl
    stays (suc n) = stays n
