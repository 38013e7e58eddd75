-- ===== src/Pkservices/Report/Laws.antt =====
-- Indenting a text, and collecting errors in stages.
use g_rpeakec_go.Prelude.{
  ℕ, zero, suc, ◌<◌, ◌≡◌, ◌≢◌, refl, ap, sym, ◌∙◌, inl, inr, Option, none, some, List, [], ◌∷◌,
  ◌++◌, map, ◌==◌, All, All-append, Bool-cases, append_assoc, append-nil, arith,
}
use g_rpeakec_go.Prelude.Text.{Text}
use g_rpeakec_go.Errors.{Err, services, errs_to_list, errs_of_list}
use g_rpeakec_go.Errors.Show.{indent}
use g_rpeakec_go.Pkservices.Report.{
  newline, add_to_first, split_lines, join_lines, repeat, indent_err, collect_loop, report_list,
  collect_services_errors,
}

abbrev IsLine : Text → Type 0
IsLine t = All (λ c. c ≢ newline) t

split_lines-line : (l : Text) → IsLine l → split_lines l ≡ l ∷ []
unfolding split_lines
split_lines-line [] ok = refl
split_lines-line (c ∷ l) (ne, ok) = ground (arith, split_lines-line l ok)

split_lines-line_then :
    (l rest : Text) → IsLine l → split_lines (l ++ newline ∷ rest) ≡ l ∷ split_lines rest
unfolding split_lines
split_lines-line_then [] rest ok = ground arith
split_lines-line_then (c ∷ l) rest (ne, ok) = ground (arith, split_lines-line_then l rest ok)

split_lines-join :
    (l : Text) (ls : List Text) → All IsLine (l ∷ ls) → split_lines (join_lines (l ∷ ls)) ≡ l ∷ ls
unfolding join_lines
split_lines-join l [] (ok, oks) = split_lines-line l ok
split_lines-join l (m ∷ ls) (ok, oks) =
    split_lines-line_then l (join_lines (m ∷ ls)) ok ∙ ap (λ xs. l ∷ xs) (split_lines-join m ls oks)

split_lines-IsLine : (t : Text) → All IsLine (split_lines t)
unfolding split_lines
split_lines-IsLine [] = (tt, tt)
split_lines-IsLine (c ∷ t) = elim (Bool-cases (c == newline)) [
  | inl e ↦ rw e (tt, split_lines-IsLine t)
  | inr e ↦
      rw e (add_to_first-IsLine (split_lines t) (λ q. ground (arith, e, q)) (split_lines-IsLine t))
]
  where
    add_to_first-IsLine :
        (ls : List Text) → c ≢ newline → All IsLine ls → All IsLine (add_to_first c ls)
    add_to_first-IsLine [] ne ok = ((ne, tt), tt)
    add_to_first-IsLine (l ∷ ls) ne (ok, oks) = ((ne, ok), oks)

not_newline : (c : ℕ) → 10 < c → c ≢ newline
not_newline c above = omega (arith, above)

pad-IsLine : (n : ℕ) → IsLine (repeat n indent)
pad-IsLine zero = tt
pad-IsLine (suc n) =
    let space : 32 ≢ newline = not_newline 32 (omega arith) in
    All-append (λ c. c ≢ newline) indent (repeat n indent) (space, (space, (space, (space, tt))))
      (pad-IsLine n)

-- A text has at least one line.
split_lines-cons : (t : Text) → (l : Text) × (ls : List Text) × (split_lines t ≡ l ∷ ls)
unfolding split_lines
split_lines-cons [] = ([], [], refl)
split_lines-cons (c ∷ t) = elim (Bool-cases (c == newline)) [
  | inl e ↦ ([], split_lines t, rw e refl)
  | inr e ↦ let (l, ls, q) = split_lines-cons t in (c ∷ l, ls, rw e (ap (add_to_first c) q))
]

map_pad-IsLine :
    (pad : Text) (ls : List Text) → IsLine pad → All IsLine ls → All IsLine (map (λ l. pad ++ l) ls)
map_pad-IsLine pad [] ok oks = tt
map_pad-IsLine pad (l ∷ ls) ok (here, more) =
    (All-append (λ c. c ≢ newline) pad l ok here, map_pad-IsLine pad ls ok more)

-- indentErr puts the indent, as often as asked for, in front of every line of the text, empty
-- lines included, and changes nothing else: the lines of its result are the lines of the text,
-- each behind the indent.
pub split_lines-indent_err :
    (text : Text) (n : ℕ)
    → split_lines (indent_err text n) ≡ map (λ line. repeat n indent ++ line) (split_lines text)
unfolding indent_err
split_lines-indent_err text n =
    let (l, ls, e) = split_lines-cons text in
    let ok : All IsLine (l ∷ ls) = rw e at (split_lines-IsLine text) in
    let padded = map_pad-IsLine (repeat n indent) (l ∷ ls) (pad-IsLine n) ok in
    rw e (split_lines-join (repeat n indent ++ l) (map (λ line. repeat n indent ++ line) ls) padded)

-- What the loop takes out of a result.
abbrev flat_one : Option Err → List Err
flat_one none = []
flat_one (some (services errs)) = errs_to_list errs
flat_one (some err) = err ∷ []

abbrev pub flat : List (Option Err) → List Err
flat [] = []
flat (r ∷ rs) = flat_one r ++ flat rs

collect_loop-cons :
    (es : List Err) (r : Option Err) (rs : List (Option Err))
    → collect_loop es (r ∷ rs) ≡ collect_loop (es ++ flat_one r) rs
unfolding collect_loop
collect_loop-cons es none rs = ap (λ xs. collect_loop xs rs) (sym (append-nil es))
collect_loop-cons es (some (services errs)) rs = refl
collect_loop-cons es (some err) rs = refl

collect_loop-flat : (es : List Err) (rs : List (Option Err)) → collect_loop es rs ≡ es ++ flat rs
unfolding collect_loop
collect_loop-flat es [] = sym (append-nil es)
collect_loop-flat es (r ∷ rs) =
    collect_loop-cons es r rs
    ∙ collect_loop-flat (es ++ flat_one r) rs
    ∙ append_assoc es (flat_one r) (flat rs)

pub errs_to_list-of_list : (es : List Err) → errs_to_list (errs_of_list es) ≡ es
errs_to_list-of_list [] = refl
errs_to_list-of_list (e ∷ es) = ap (λ xs. e ∷ xs) (errs_to_list-of_list es)

flat_one-report_list : (es : List Err) → flat_one (report_list es) ≡ es
unfolding report_list
flat_one-report_list [] = refl
flat_one-report_list (e ∷ es) = ap (λ xs. e ∷ xs) (errs_to_list-of_list es)

flat-append : (a b : List (Option Err)) → flat (a ++ b) ≡ flat a ++ flat b
flat-append [] b = refl
flat-append (r ∷ a) b =
    ap (λ xs. flat_one r ++ xs) (flat-append a b)
    ∙ sym (append_assoc (flat_one r) (flat a) (flat b))

pub collect-flat : (rs : List (Option Err)) → collect_services_errors rs ≡ report_list (flat rs)
unfolding collect_services_errors
collect-flat rs = ap report_list (collect_loop-flat [] rs)

-- Collecting in two stages, as runAllServices does with what mapServices has collected, gives what
-- collecting all results at once gives: no error is lost, repeated, reordered or nested.
pub collect_nested :
    (a b : List (Option Err))
    → collect_services_errors (collect_services_errors a ∷ collect_services_errors b ∷ [])
      ≡ collect_services_errors (a ++ b)
collect_nested a b =
    collect-flat _
    ∙ ap report_list (
        rw (collect-flat a, collect-flat b)
          (rw (flat_one-report_list (flat a), flat_one-report_list (flat b))
            (rw append-nil (sym (flat-append a b)))))
    ∙ sym (collect-flat (a ++ b))
