-- ===== src/Docs/Html/Frame.antt =====
-- The markup of the HTML that is built, and what the handlers do.
use g_rpeakec_go.Prelude.{
  ℕ, ◌+◌, ◌≡◌, ◌↔◌, refl, Option, none, some, inl, inr, List, [], ◌∷◌, ◌++◌, get_elem?, ◌==◌,
  if◌then◌else◌, All, Bool-cases, arith,
}
use g_rpeakec_go.Prelude.Text.{Text, codes, text_eq}
use g_rpeakec_go.Docs.Html.{
  Anchor, Caller, Fact, ImplGroup, TypeInfo, Analysis, callers_data, View, escape_html, make_anchor,
  implements_html, on_click_callers, on_callers, facts_html, groups_html, fact_html,
}
use g_rpeakec_go.Docs.Html.Escape.{IsPlain, escape_html-IsPlain}

-- The tags of a text: how often it opens one.
abbrev pub tags : Text → ℕ
tags [] = 0
tags (c ∷ s) = (if c == b'<' then 1 else 0) + tags s

tags-append : (s t : Text) → tags (s ++ t) ≡ tags s + tags t
tags-append [] t = omega arith
tags-append (c ∷ s) t = omega (arith, tags-append s t)

tags-plain : (s : Text) → All IsPlain s → tags s ≡ 0
tags-plain [] h = refl
tags-plain (c ∷ s) (h, hs) = ground (arith, h.0, tags-plain s hs)

tags-escape_html : (s : Text) → tags (escape_html s) ≡ 0
tags-escape_html s = tags-plain (escape_html s) (escape_html-IsPlain s)

-- A link adds its two tags.
abbrev pub link_tags : Anchor → ℕ
link_tags a = if text_eq a.href [] then 0 else 2

tags-make_anchor : (a : Anchor) → tags (make_anchor a) ≡ link_tags a
unfolding make_anchor
tags-make_anchor a = elim (Bool-cases (text_eq a.href [])) [
  | inl e ↦ rw e (tags-escape_html a.text)
  | inr e ↦ rw e (simp (tags-append, tags-escape_html))
]

ruleset tag_rules = (arith, tags-append, tags-escape_html, tags-make_anchor)

tags-fact_html : (x y : Text) (kind : Option Text) → tags (fact_html x kind y) ≡ tags x + tags y
tags-fact_html x y none = omega tag_rules
tags-fact_html x y (some kind) = omega tag_rules

abbrev pub facts_tags : List Fact → ℕ
facts_tags [] = 0
facts_tags (fact ∷ facts) = 5 + link_tags fact.other + facts_tags facts

abbrev pub groups_tags : List ImplGroup → ℕ
groups_tags [] = 0
groups_tags (group ∷ groups) = facts_tags group.facts + groups_tags groups

tags-facts_html :
    (x : Text) (facts : List Fact) → tags x ≡ 2 → tags (facts_html x facts) ≡ facts_tags facts
tags-facts_html x [] two = refl
tags-facts_html x (fact ∷ facts) two =
    let y = codes "<code>" ++ make_anchor fact.other ++ codes "</code>" in
    let here : tags y ≡ 2 + link_tags fact.other = omega (
      arith,
      tags-append (make_anchor fact.other) (codes "</code>"),
      tags-make_anchor fact.other,
    ) in
    omega (tag_rules, tags-fact_html x y fact.by_kind, tags-facts_html x facts two)

tags-groups_html : (groups : List ImplGroup) → tags (groups_html groups) ≡ groups_tags groups
tags-groups_html [] = refl
tags-groups_html (group ∷ groups) =
    let x = codes "<code>" ++ escape_html group.descr ++ codes "</code> " in
    let two : tags x ≡ 2 = omega (
      arith,
      tags-append (escape_html group.descr) (codes "</code> "),
      tags-escape_html group.descr,
    ) in
    omega (tag_rules, tags-facts_html x group.facts two, tags-groups_html groups)

-- The HTML of the implements relation opens five tags for each fact, for the two names and the line
-- end, and two for each link; the names and kinds of the analysis, whatever they hold, add none.
pub tags-implements_html :
    (info : TypeInfo) (groups : List ImplGroup)
    → info.impl_groups ≡ some groups
    → tags (implements_html info) ≡ groups_tags groups
unfolding implements_html
tags-implements_html info groups e = rw e (tags-groups_html groups)

abbrev IsNullSole : List Caller → Type 0
IsNullSole callers = (caller : Caller) × (callers ≡ caller ∷ []) × (caller.sites ≡ none)

on_callers-sole :
    (callee : Text) (v : View) (func : Text) (sites : Option (List Anchor))
    → (on_callers callee (record { func = func; sites = sites } ∷ []) v ≡ none)
      ↔ IsNullSole (record { func = func; sites = sites } ∷ [])
on_callers-sole callee v func none =
    (λ _. (record { func = func; sites = none }, refl, refl), λ _. refl)
on_callers-sole callee v func (some []) = ground arith
on_callers-sole callee v func (some (a ∷ [])) = ground arith
on_callers-sole callee v func (some (a ∷ b ∷ sites)) = ground arith

-- With a list of callers at the index, the handler of `func` tokens throws exactly when there is a
-- sole caller and its list of sites is null, since only the loop, and not the test before it,
-- allows for null.
pub on_click_callers-none_iff :
    (analysis : List Analysis) (index : ℕ) (callee : Text) (callers : List Caller) (v : View)
    → get_elem? analysis index ≡ some (callers_data callee callers)
    → (on_click_callers analysis index v ≡ none) ↔ IsNullSole callers
unfolding on_click_callers
on_click_callers-none_iff analysis index callee [] v e = rw (e, on_click_callers) (ground arith)
on_click_callers-none_iff analysis index callee (caller ∷ []) v e =
    rw (e, on_click_callers) (on_callers-sole callee v caller.func caller.sites)
on_click_callers-none_iff analysis index callee (a ∷ b ∷ callers) v e =
    rw (e, on_click_callers) (ground arith)
