-- ===== src/Lexer/Local.antt =====
-- An item that ends before a semicolon is read the same where the text stops at the semicolon.
use havuz.Base.{
  ℕ, zero, suc, ◌≤◌, ◌≡◌, refl, sym, ap, ◌∙◌, ◌||◌, true, false, none, some, [], ◌∷◌, ◌++◌, ◌==◌,
  length, Bool-cases, Option-cases, inl, inr, arith,
}
use havuz.Chars.{Str, starts_with}
use havuz.Lexer.{
  begins, quote_step, quote_len, tag_rest_len, take, body_len, line_len, block_step, block_len,
  hidden, or_zero,
}

begins_local : (q : ℕ) (f ys : Str) → ((59 == q) ≡ false) → begins q (f ++ b';' ∷ ys) ≡ begins q f
begins_local q [] ys h = h
begins_local q (c ∷ f) ys h = refl

quote_step_local :
    (q c : ℕ) (f ys : Str)
    → ((59 == q) ≡ false)
    → quote_step q c (f ++ b';' ∷ ys) ≡ quote_step q c f
quote_step_local q c f ys h = rw (begins_local q f ys h) refl

quote_len_ends : (q c : ℕ) (cs : Str) → quote_step q c cs ≡ none → quote_len q 0 (c ∷ cs) ≡ 1
unfolding quote_len
quote_len_ends q c cs e = rw (e, quote_len) refl

quote_len_goes :
    (q c n : ℕ) (cs : Str)
    → quote_step q c cs ≡ some n
    → quote_len q 0 (c ∷ cs) ≡ suc (quote_len q n cs)
unfolding quote_len
quote_len_goes q c n cs e = rw (e, quote_len) refl

quote_local_step :
    (q c n : ℕ) (f ys : Str)
    → quote_step q c f ≡ some n
    → quote_step q c (f ++ b';' ∷ ys) ≡ some n
    → quote_len q 0 (c ∷ (f ++ b';' ∷ ys)) ≤ suc (length f)
    → (quote_len q n (f ++ b';' ∷ ys) ≤ length f → quote_len q n f ≡ quote_len q n (f ++ b';' ∷ ys))
    → quote_len q 0 (c ∷ f) ≡ quote_len q 0 (c ∷ (f ++ b';' ∷ ys))
quote_local_step q c n f ys here there fits more =
    let whole : quote_len q 0 (c ∷ (f ++ b';' ∷ ys)) ≡ suc (quote_len q n (f ++ b';' ∷ ys)) =
      quote_len_goes q c n (f ++ b';' ∷ ys) there in
    quote_len_goes q c n f here ∙ (ap suc (more (omega (arith, whole, fits))) ∙ sym whole)

quote_local :
    (q skip : ℕ) (f ys : Str)
    → ((59 == q) ≡ false)
    → quote_len q skip (f ++ b';' ∷ ys) ≤ length f
    → quote_len q skip f ≡ quote_len q skip (f ++ b';' ∷ ys)
unfolding quote_len
quote_local q zero [] ys h fits = ground arith
quote_local q (suc skip) [] ys h fits = omega arith
quote_local q (suc skip) (c ∷ f) ys h fits = ground (arith, quote_local q skip f ys h)
quote_local q zero (c ∷ f) ys h fits = elim (Option-cases (quote_step q c f)) [
  | inl ends ↦
      quote_len_ends q c f ends
      ∙ sym (quote_len_ends q c (f ++ b';' ∷ ys) (quote_step_local q c f ys h ∙ ends))
  | inr (n, goes) ↦
      quote_local_step q c n f ys goes (quote_step_local q c f ys h ∙ goes) fits
        (quote_local q n f ys h)
]

line_local :
    (f ys : Str) → line_len (f ++ b';' ∷ ys) ≤ length f → line_len f ≡ line_len (f ++ b';' ∷ ys)
unfolding line_len
line_local [] ys fits = ground arith
line_local (c ∷ f) ys fits = ground (arith, line_local f ys)

block_step_local :
    (depth c : ℕ) (f ys : Str) → block_step depth c (f ++ b';' ∷ ys) ≡ block_step depth c f
block_step_local depth c f ys = rw (begins_local b'*' f ys refl, begins_local b'/' f ys refl) refl

block_local :
    (skip depth : ℕ) (f ys : Str)
    → block_len skip depth (f ++ b';' ∷ ys) ≤ length f
    → block_len skip depth f ≡ block_len skip depth (f ++ b';' ∷ ys)
unfolding block_len
block_local zero zero [] ys fits = refl
block_local zero (suc depth) [] ys fits = ground arith
block_local (suc skip) depth [] ys fits = ground arith
block_local (suc skip) depth (c ∷ f) ys fits = ground (arith, block_local skip depth f ys)
block_local zero zero (c ∷ f) ys fits = refl
block_local zero (suc depth) (c ∷ f) ys fits =
    rw
      (
        block_step_local depth c f ys,
        block_local (block_step depth c f).1 (block_step depth c f).0 f ys
            (omega (arith, rw (block_step_local depth c f ys) at fits)),
      )
      refl

tag_local : (f ys : Str) → tag_rest_len (f ++ b';' ∷ ys) ≡ tag_rest_len f
unfolding tag_rest_len
tag_local [] ys = refl
tag_local (c ∷ f) ys = rw (tag_local f ys) refl

tag_fits : (f : Str) (n : ℕ) → tag_rest_len f ≡ some n → n ≤ length f
unfolding tag_rest_len
tag_fits [] n h = absurd (cc)
tag_fits (c ∷ f) n h = elim (Option-cases (tag_rest_len f)) [
  | inl e ↦ ground (arith, e)
  | inr (m, e) ↦ ground (arith, e, tag_fits f m e)
]

take_local : (n : ℕ) (f ys : Str) → n ≤ length f → take n (f ++ ys) ≡ take n f
take_local zero f ys fits = refl
take_local (suc n) [] ys fits = absurd (omega (arith, fits))
take_local (suc n) (c ∷ f) ys fits = ap (λ t. c ∷ t) (take_local n f ys (omega (arith, fits)))

starts_local :
    (tag f ys : Str) → length tag ≤ length f → starts_with tag (f ++ ys) ≡ starts_with tag f
unfolding starts_with
starts_local [] f ys fits = refl
starts_local (t ∷ ts) [] ys fits = absurd (omega (arith, fits))
starts_local (t ∷ ts) (c ∷ f) ys fits = ground (arith, starts_local ts f ys (omega (arith, fits)))

starts_longer : (tag f ys : Str) → starts_with tag (f ++ ys) ≡ false → starts_with tag f ≡ false
unfolding starts_with
starts_longer [] f ys h = h
starts_longer (t ∷ ts) [] ys h = refl
starts_longer (t ∷ ts) (c ∷ f) ys h = ground (arith, starts_longer ts f ys)

body_local :
    (tag : Str) (skip : ℕ) (f ys : Str)
    → starts_with tag (b';' ∷ ys) ≡ false
    → body_len tag skip (f ++ b';' ∷ ys) ≤ length f
    → body_len tag skip f ≡ body_len tag skip (f ++ b';' ∷ ys)
unfolding body_len
body_local tag zero [] ys h fits = ground arith
body_local tag (suc skip) [] ys h fits = ground arith
body_local tag (suc skip) (c ∷ f) ys h fits = ground (arith, body_local tag skip f ys h)
body_local tag zero (c ∷ f) ys h fits = elim (Bool-cases (starts_with tag (c ∷ (f ++ b';' ∷ ys)))) [
  | inl e ↦ ground (arith, e, starts_local tag (c ∷ f) (b';' ∷ ys))
  | inr e ↦ ground (arith, e, starts_longer tag (c ∷ f) (b';' ∷ ys) e, body_local tag 0 f ys h)
]

not_semicolon : (c : ℕ) → ((c == b'\'') || (c == b'"')) ≡ true → (59 == c) ≡ false
not_semicolon c h = ground arith

-- The item at a character is the same in the whole text, if it ends before the semicolon there.
pub hidden_local :
    (c : ℕ) (f ys : Str)
    → or_zero (hidden c (f ++ b';' ∷ ys)) ≤ length f
    → hidden c f ≡ hidden c (f ++ b';' ∷ ys)
unfolding hidden
hidden_local c f ys fits = elim (Bool-cases ((c == b'\'') || (c == b'"'))) [
  | inl quote ↦ ground (arith, quote, quote_local c 0 f ys (not_semicolon c quote))
  | inr no_quote ↦ elim (Bool-cases (c == b'$')) [
    | inl dollar ↦ elim (Option-cases (tag_rest_len f)) [
      | inl open_ ↦ ground (arith, no_quote, dollar, tag_local f ys, open_)
      | inr (n, tagged) ↦ ground (
        arith,
        no_quote,
        dollar,
        tag_local f ys,
        tagged,
        take_local n f (b';' ∷ ys) (tag_fits f n tagged),
        body_local (c ∷ take n f) n f ys,
      )
    ]
    | inr no_dollar ↦ ground (
      arith,
      no_quote,
      no_dollar,
      begins_local b'-' f ys refl,
      begins_local b'*' f ys refl,
      line_local f ys,
      block_local 1 1 f ys,
    )
  ]
]
