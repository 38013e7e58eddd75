-- ===== src/Docs/Html/Escape.antt =====
-- escapeHTML against a definition of one pass, and the way back.
use g_rpeakec_go.Prelude.{
  ℕ, zero, suc, ◌≡◌, ◌≢◌, refl, ap, sym, ◌∙◌, inl, inr, [], ◌∷◌, ◌++◌, ◌==◌, if◌then◌else◌, All,
  All-append, append_assoc, Bool-cases, arith,
}
use g_rpeakec_go.Prelude.Text.{Text, codes, replace, starts_with}
use g_rpeakec_go.Docs.Html.{escape_html}

-- What stands for one character.
abbrev pub escape_char : ℕ → Text
escape_char c =
    if c == b'&'
    then codes "&amp;"
    else if c == 34
    then codes "&quot;"
    else if c == 39
    then codes "&#39;"
    else if c == b'<'
    then codes "&lt;"
    else if c == b'>'
    then codes "&gt;"
    else c ∷ []

abbrev pub spread : (ℕ → Text) → Text → Text
spread f [] = []
spread f (c ∷ s) = f c ++ spread f s

abbrev one_for : ℕ → Text → ℕ → Text
one_for old new c = if old == c then new else c ∷ []

spread-append : (f : ℕ → Text) (s t : Text) → spread f (s ++ t) ≡ spread f s ++ spread f t
spread-append f [] t = refl
spread-append f (c ∷ s) t =
    ap (λ v. f c ++ v) (spread-append f s t) ∙ sym (append_assoc (f c) (spread f s) (spread f t))

replace-one : (old : ℕ) (new s : Text) → replace (old ∷ []) new s ≡ spread (one_for old new) s
unfolding replace
replace-one old new [] = refl
replace-one old new (c ∷ s) = elim (Bool-cases (old == c)) [
  | inl e ↦ rw e (ap (λ v. new ++ v) (replace-one old new s))
  | inr e ↦ rw e (ap (λ v. c ∷ v) (replace-one old new s))
]

spread-spread : (f g : ℕ → Text) (s : Text) → spread f (spread g s) ≡ spread (λ c. spread f (g c)) s
spread-spread f g [] = refl
spread-spread f g (c ∷ s) =
    spread-append f (g c) (spread g s) ∙ ap (λ v. spread f (g c) ++ v) (spread-spread f g s)

-- The five replacements one after the other, on one character.
replacements_at :
    (c : ℕ)
    → spread (one_for b'>' (codes "&gt;")) (
        spread (one_for b'<' (codes "&lt;")) (
          spread
            (one_for 39 (codes "&#39;"))
            (spread (one_for 34 (codes "&quot;")) (one_for b'&' (codes "&amp;") c))))
      ≡ escape_char c
replacements_at c = ground arith

spread-cong : (f g : ℕ → Text) → ((c : ℕ) → f c ≡ g c) → (s : Text) → spread f s ≡ spread g s
spread-cong f g h [] = refl
spread-cong f g h (c ∷ s) = cc (h c, spread-cong f g h s)

-- One replacement more after a pass.
pass_then :
    (old : ℕ) (new : Text) (f : ℕ → Text) (s t : Text)
    → t ≡ spread f s
    → replace (old ∷ []) new t ≡ spread (λ c. spread (one_for old new) (f c)) s
pass_then old new f s t e =
    replace-one old new t ∙ (ap (spread (one_for old new)) e ∙ spread-spread (one_for old new) f s)

-- escapeHTML, five replacements over the whole text, is one pass that replaces each of the five
-- metacharacters by its entity: no replacement touches what an earlier one has put in.
pub escape_html_lem : (s : Text) → escape_html s ≡ spread escape_char s
unfolding escape_html
escape_html_lem s =
    let a = replace-one b'&' (codes "&amp;") s in
    let b = pass_then 34 (codes "&quot;") _ s _ a in
    let c = pass_then 39 (codes "&#39;") _ s _ b in
    let d = pass_then b'<' (codes "&lt;") _ s _ c in
    pass_then b'>' (codes "&gt;") _ s _ d ∙ spread-cong _ escape_char replacements_at s

-- The entities read back, as a browser does; `skip` counts what is left of an entity.
unfoldable pub decode : ℕ → Text → Text
unfolding starts_with
decode skip [] = []
decode (suc skip) (c ∷ s) = decode skip s
decode zero (c ∷ s) =
    let next = decode 0 s in
    let after_3 = decode 3 s in
    let after_4 = decode 4 s in
    let after_5 = decode 5 s in
    if starts_with (codes "&amp;") (c ∷ s)
    then b'&' ∷ after_4
    else if starts_with (codes "&quot;") (c ∷ s)
    then 34 ∷ after_5
    else if starts_with (codes "&#39;") (c ∷ s)
    then 39 ∷ after_4
    else if starts_with (codes "&lt;") (c ∷ s)
    then b'<' ∷ after_3
    else if starts_with (codes "&gt;") (c ∷ s)
    then b'>' ∷ after_3
    else c ∷ next

decode-char : (c : ℕ) (rest : Text) → decode 0 (escape_char c ++ rest) ≡ c ∷ decode 0 rest
unfolding decode
decode-char c rest = ground arith

decode-spread : (s : Text) → decode 0 (spread escape_char s) ≡ s
unfolding decode
decode-spread [] = refl
decode-spread (c ∷ s) = decode-char c (spread escape_char s) ∙ ap (λ v. c ∷ v) (decode-spread s)

-- What escapeHTML writes reads back as the text it was given, whatever that holds, an ampersand or
-- a text that looks like an entity included.
pub decode-escape_html : (s : Text) → decode 0 (escape_html s) ≡ s
decode-escape_html s = rw (escape_html_lem s) (decode-spread s)

-- No character that opens or closes a tag or an attribute.
abbrev pub IsPlain : ℕ → Type 0
IsPlain c = (c ≢ b'<') × (c ≢ b'>') × (c ≢ 34) × (c ≢ 39)

escape_char-IsPlain : (c : ℕ) → All IsPlain (escape_char c)
escape_char-IsPlain c = ground arith

spread-IsPlain : (s : Text) → All IsPlain (spread escape_char s)
spread-IsPlain [] = tt
spread-IsPlain (c ∷ s) =
    All-append IsPlain (escape_char c) (spread escape_char s) (escape_char-IsPlain c)
      (spread-IsPlain s)

-- The result of escapeHTML holds no angle bracket and no quote, so that it is safe inside of an
-- element and of an attribute in either kind of quotes.
pub escape_html-IsPlain : (s : Text) → All IsPlain (escape_html s)
escape_html-IsPlain s = rw (escape_html_lem s) (spread-IsPlain s)
