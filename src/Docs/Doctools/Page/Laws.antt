-- ===== src/Docs/Doctools/Page/Laws.antt =====
-- The index table, the keys and the addresses.
use mathlib.Core.Path.{fun_ext}
use g_rpeakec_go.Prelude.{
  ℕ, zero, suc, ◌+◌, ◌-◌, ◌≡◌, ◌⊎◌, inl, inr, refl, ap, ◌∙◌, Bool, true, false, not, Option, none,
  some, List, [], ◌∷◌, ◌++◌, All, length, length-append, ==_iff, if◌then◌else◌, Bool-cases, arith,
}
use g_rpeakec_go.Prelude.Text.{Text, codes, text_eq}
use g_rpeakec_go.Docs.Options.{Options}
use g_rpeakec_go.Docs.Regex.{take, drop}
use g_rpeakec_go.Docs.Strings.{split}
use g_rpeakec_go.Docs.Doctools.Page.{
  Toggler, toggled_src, ends_with, IndexTable, toggle_at, id_at, toggle_rows, click_toggler,
  KeyEvent, on_key, go_to, is_plain, climb, get_current_url,
}

drop-append : (s t : Text) → drop (length s) (s ++ t) ≡ t
drop-append [] t = refl
drop-append (c ∷ s) t = drop-append s t

take-append : (s t : Text) → take (length s) (s ++ t) ≡ s
take-append [] t = refl
take-append (c ∷ s) t = ap (λ v. c ∷ v) (take-append s t)

drop_less : (c : ℕ) (s t : Text) → (d : ℕ) × (drop (length s) (c ∷ s ++ t) ≡ d ∷ t)
drop_less c [] t = (c, refl)
drop_less c (d ∷ s) t = drop_less d s t

length_less : (s t : Text) (n k : ℕ) → length t ≡ n + k → length (s ++ t) - k ≡ length s + n
length_less s t n k e = omega (arith, e, length-append s t)

-- The two images of a button.
abbrev pub IsImage : Text → Type 0
IsImage src = (base : Text) × ((src ≡ base ++ codes "minus.png") ⊎ (src ≡ base ++ codes "plus.png"))

ends_with-minus : (base : Text) → ends_with (codes "minus.png") (base ++ codes "minus.png") ≡ true
unfolding text_eq
ends_with-minus base =
    let n : length (base ++ codes "minus.png") - 9 ≡ length base =
      omega (arith, length-append base (codes "minus.png")) in
    rw n (rw (drop-append base (codes "minus.png")) refl)

ends_with-plus : (base : Text) → ends_with (codes "minus.png") (base ++ codes "plus.png") ≡ false
unfolding text_eq
ends_with-plus [] = refl
ends_with-plus (c ∷ base) =
    let n : length (c ∷ base ++ codes "plus.png") - 9 ≡ length base =
      omega (arith, length-append base (codes "plus.png")) in
    let (d, e) = drop_less c base (codes "plus.png") in rw n (rw e (ground arith))

toggled_src-minus :
    (base : Text) → toggled_src (base ++ codes "minus.png") ≡ base ++ codes "plus.png"
toggled_src-minus base =
    let n : length (base ++ codes "minus.png") - 9 ≡ length base =
      omega (arith, length-append base (codes "minus.png")) in
    rw (ends_with-minus base) (rw n (rw (take-append base (codes "minus.png")) refl))

toggled_src-plus :
    (base : Text) → toggled_src (base ++ codes "plus.png") ≡ base ++ codes "minus.png"
toggled_src-plus base =
    let n : length (base ++ codes "plus.png") - 8 ≡ length base =
      omega (arith, length-append base (codes "plus.png")) in
    rw (ends_with-plus base) (rw n (rw (take-append base (codes "plus.png")) refl))

toggled_src-toggled_src : (src : Text) → IsImage src → toggled_src (toggled_src src) ≡ src
toggled_src-toggled_src src (base, inl e) =
    rw e (ap toggled_src (toggled_src-minus base) ∙ toggled_src-plus base)
toggled_src-toggled_src src (base, inr e) =
    rw e (ap toggled_src (toggled_src-plus base) ∙ toggled_src-minus base)

toggle_at-toggle_at :
    (i : ℕ) (ts : List Toggler) → All (λ t. IsImage t.src) ts → toggle_at i (toggle_at i ts) ≡ ts
toggle_at-toggle_at i [] ok = refl
toggle_at-toggle_at zero (t ∷ ts) (here, ok) =
    ap (λ src. record { src = src; idnum = t.idnum } ∷ ts) (toggled_src-toggled_src t.src here)
toggle_at-toggle_at (suc i) (t ∷ ts) (here, ok) = ap (λ us. t ∷ us) (toggle_at-toggle_at i ts ok)

id_at-toggle_at : (i : ℕ) (ts : List Toggler) → id_at i (toggle_at i ts) ≡ id_at i ts
id_at-toggle_at i [] = refl
id_at-toggle_at zero (t ∷ ts) = refl
id_at-toggle_at (suc i) (t ∷ ts) = id_at-toggle_at i ts

toggle_rows-toggle_rows :
    (o : Option Text) (shown : Text → Bool) → toggle_rows o (toggle_rows o shown) ≡ shown
toggle_rows-toggle_rows none shown = refl
toggle_rows-toggle_rows (some idnum) shown = fun_ext (λ row. twice (text_eq row idnum) (shown row))
  where
    twice :
        (b s : Bool) → (if b then not (if b then not s else s) else (if b then not s else s)) ≡ s
    twice true true = refl
    twice true false = refl
    twice false s = refl

table_eq :
    {ts us : List Toggler} {shown hidden : Text → Bool}
    → ts ≡ us
    → shown ≡ hidden
    → ◌≡◌ {A = IndexTable}
        (record { togglers = ts; shown = shown })
        (record { togglers = us; shown = hidden })
table_eq e f = cc (e, f)

-- Clicking a button of the index table twice restores the table: the image of the button and the
-- rows of its number, given that each image is the plus or the minus.
pub click_toggler-click_toggler :
    (i : ℕ) (table : IndexTable)
    → All (λ t. IsImage t.src) table.togglers
    → click_toggler i (click_toggler i table) ≡ table
unfolding click_toggler
click_toggler-click_toggler i table ok =
    let once = toggle_at i table.togglers in
    let rows : toggle_rows (id_at i once) (toggle_rows (id_at i table.togglers) table.shown)
        ≡ table.shown =
      rw (id_at-toggle_at i table.togglers)
        (toggle_rows-toggle_rows (id_at i table.togglers) table.shown) in
    table_eq (toggle_at-toggle_at i table.togglers ok) rows

go_to-none : (prev right : Option Text) → go_to prev none ≡ none → go_to prev right ≡ right
go_to-none none right h = refl
go_to-none (some []) right h = refl
go_to-none (some (c ∷ href)) right h = ground (arith, h)

-- The left arrow leads where the right arrow leads on a page without a link to a previous one.
pub on_key-left :
    (active : Text) (prev next : Option Text) (event : KeyEvent)
    → event.key_code ≡ 37
    → (go_to prev none ≡ none)
    → on_key active prev next event ≡ on_key active prev next (record event { key_code = 39 })
unfolding on_key
on_key-left active prev next event e none_there =
    let left = (==_iff event.key_code 37).1 e in
    elim (Bool-cases (is_plain active event)) [
      | inl q ↦ rw q (rw left (go_to-none prev (go_to next none) none_there))
      | inr q ↦ rw q refl
    ]

climb_lem : (rs parts : List Text) → climb rs parts ≡ parts
climb_lem [] parts = refl
climb_lem (r ∷ rs) parts = climb_lem rs parts

-- The current address is the same for every root of the documentation: the steps up that the root
-- asks for are never taken, since the test for them compares an object with a string.
pub get_current_url-climb :
    (options other : Options) (path : Text)
    → get_current_url options path ≡ get_current_url other path
unfolding get_current_url
get_current_url-climb options other path =
    rw (climb_lem (split b'/' options.url_root) (split b'/' path))
      (rw (climb_lem (split b'/' other.url_root) (split b'/' path)) refl)
