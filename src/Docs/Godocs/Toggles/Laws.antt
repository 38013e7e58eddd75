-- ===== src/Docs/Godocs/Toggles/Laws.antt =====
-- What a click on the header of a section does.
use g_rpeakec_go.Prelude.{
  ℕ, ◌+◌, ◌≡◌, refl, true, false, some, inl, inr, List, [], ◌∷◌, ◌==◌, ==_iff, if◌then◌else◌,
  update, Bool-cases, arith,
}
use g_rpeakec_go.Docs.Godocs.Toggles.{
  Classes, flip, Selections, click_header, bound_to, run_handlers, click_button,
}

-- How often an element stands in a list.
abbrev pub count : ℕ → List ℕ → ℕ
count e [] = 0
count e (x ∷ xs) = (if x == e then 1 else 0) + count e xs

module _ (page : Selections) (classes : Classes) (button e : ℕ) where
  -- The state before the click, and with the one section flipped.
  abbrev pub flipped : Classes
  flipped = update classes e (flip (classes e))

  -- The nearest section is the same before and after, since it keeps one of the two classes.
  abbrev pub IsNearest : Type 0
  IsNearest = (page.closest classes button ≡ some e) × (page.closest flipped button ≡ some e)

  click_header-nearest : IsNearest → click_header page e button classes ≡ flipped
  unfolding click_header
  click_header-nearest (near, _) =
      let same : (e == e) ≡ true = ground arith in rw near (rw same refl)

  click_header-other :
      (el : ℕ) (now : Classes)
      → page.closest now button ≡ some e
      → (el == e) ≡ false
      → click_header page el button now ≡ now
  unfolding click_header
  click_header-other el now near ne = rw near (rw ne refl)

  run_handlers-others :
      (els : List ℕ) (now : Classes)
      → page.closest now button ≡ some e
      → count e els ≡ 0
      → run_handlers page els button now ≡ now
  unfolding run_handlers
  run_handlers-others [] now near none_left = refl
  run_handlers-others (el ∷ els) now near none_left =
      let ne : (el == e) ≡ false = ground (arith, none_left) in
      let rest : count e els ≡ 0 = ground (arith, none_left) in
      rw (click_header-other el now near ne) (run_handlers-others els now near rest)

  run_handlers-once :
      (els : List ℕ) → IsNearest → count e els ≡ 1 → run_handlers page els button classes ≡ flipped
  unfolding run_handlers
  run_handlers-once [] near once = ground (arith, once)
  run_handlers-once (el ∷ els) near once = elim (Bool-cases (el == e)) [
    | inl q ↦
        let same : el ≡ e = (==_iff el e).0 q in
        let rest : count e els ≡ 0 = ground (arith, once, q) in
        rw same (rw (click_header-nearest near) (run_handlers-others els flipped near.1 rest))
    | inr q ↦
        let rest : count e els ≡ 1 = ground (arith, once, q) in
        rw (click_header-other el classes near.0 q) (run_handlers-once els near rest)
  ]

  -- A click on a button, to which the handlers of all sections around it are bound, changes the
  -- classes of the nearest section and of no other element, given that the section's own handler
  -- is bound once and that it is the nearest in either state.
  pub click_button-nearest :
      (sections : List ℕ)
      → IsNearest
      → count e (bound_to page button sections) ≡ 1
      → click_button page sections button classes ≡ update classes e (flip (classes e))
  unfolding click_button
  click_button-nearest sections near once =
      run_handlers-once (bound_to page button sections) near once
