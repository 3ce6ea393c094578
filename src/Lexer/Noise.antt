-- ===== src/Lexer/Noise.antt =====
-- The loop that skips leading blanks and comments ends (crates/havuz-pg/src/classify.rs).
use havuz.Base.{
  ℕ, zero, suc, ◌+◌, ◌≤◌, ◌<◌, ◌≡◌, refl, none, some, [], ◌∷◌, length, Option-cases, inl, inr,
  arith,
}
use havuz.Chars.{Str, codes, strip_prefix, trim_start}
use havuz.Lexer.{after_comment, after_line, noise_step, strip_noise, strip_leading_noise}

length-trim_start : (s : Str) → length (trim_start s) ≤ length s
unfolding trim_start
length-trim_start [] = omega arith
length-trim_start (c ∷ cs) = ground (arith, length-trim_start cs)

length-after_line : (s : Str) → length (after_line s) ≤ length s
unfolding after_line
length-after_line [] = omega arith
length-after_line (c ∷ cs) = ground (arith, length-after_line cs)

length-strip_prefix :
    (p s rest : Str) → strip_prefix p s ≡ some rest → length p + length rest ≡ length s
unfolding strip_prefix
length-strip_prefix [] s rest h = ground arith
length-strip_prefix (a ∷ p) [] rest h = absurd (cc)
length-strip_prefix (a ∷ p) (c ∷ cs) rest h = ground (arith, length-strip_prefix p cs rest)

length-after_comment : (s rest : Str) → after_comment s ≡ some rest → length rest ≤ length s
unfolding after_comment
length-after_comment [] rest h = absurd (cc)
length-after_comment (c ∷ cs) rest h = elim (Option-cases (strip_prefix (codes "*/") (c ∷ cs))) [
  | inl e ↦ ground (arith, e, length-after_comment cs rest)
  | inr (r, e) ↦ ground (arith, e, length-strip_prefix (codes "*/") (c ∷ cs) r e)
]

noise_shrinks : (s rest : Str) → noise_step s ≡ some rest → length rest < length s
unfolding noise_step
noise_shrinks s rest h = elim (Option-cases (strip_prefix (codes "--") s)) [
  | inr (after, e) ↦ ground (
    arith,
    e,
    length-strip_prefix (codes "--") s after e,
    length-trim_start (after_line after),
    length-after_line after,
  )
  | inl e ↦ elim (Option-cases (strip_prefix (codes "/*") s)) [
    | inl e' ↦ ground (arith, e, e')
    | inr (after, e') ↦ elim (Option-cases (after_comment after)) [
      | inl e'' ↦ ground (arith, e, e', e'', length-strip_prefix (codes "/*") s after e')
      | inr (r, e'') ↦ ground (
        arith,
        e,
        e',
        e'',
        length-strip_prefix (codes "/*") s after e',
        length-trim_start r,
        length-after_comment after r e'',
      )
    ]
  ]
]

empty_is_quiet : noise_step [] ≡ none
unfolding noise_step
empty_is_quiet = refl

empty_is_trimmed : trim_start [] ≡ []
unfolding trim_start
empty_is_trimmed = refl

strip_noise_zero : (s : Str) → strip_noise 0 s ≡ s
unfolding strip_noise
strip_noise_zero s = refl

strip_noise_stops : (fuel : ℕ) (s : Str) → noise_step s ≡ none → strip_noise (suc fuel) s ≡ s
unfolding strip_noise
strip_noise_stops fuel s e = rw (e, strip_noise) refl

pub strip_noise_goes :
    (fuel : ℕ) (s rest : Str)
    → noise_step s ≡ some rest
    → strip_noise (suc fuel) s ≡ strip_noise fuel rest
unfolding strip_noise
strip_noise_goes fuel s rest e = rw (e, strip_noise) refl

-- Any fuel from the length on ends the loop.
noise_ends : (fuel : ℕ) (s : Str) → length s ≤ fuel → noise_step (strip_noise fuel s) ≡ none
noise_ends zero [] fits = rw (strip_noise_zero []) empty_is_quiet
noise_ends zero (c ∷ s) fits = absurd (omega (arith, fits))
noise_ends (suc fuel) s fits = elim (Option-cases (noise_step s)) [
  | inl e ↦ rw (strip_noise_stops fuel s e) e
  | inr (rest, e) ↦
      rw (strip_noise_goes fuel s rest e)
        (noise_ends fuel rest (omega (arith, noise_shrinks s rest e, fits)))
]

trim_start_idem : (s : Str) → trim_start (trim_start s) ≡ trim_start s
unfolding trim_start
trim_start_idem [] = refl
trim_start_idem (c ∷ cs) = ground (arith, trim_start_idem cs)

noise_trims : (s rest : Str) → noise_step s ≡ some rest → trim_start rest ≡ rest
unfolding noise_step
noise_trims s rest h = elim (Option-cases (strip_prefix (codes "--") s)) [
  | inr (after, e) ↦ ground (arith, e, trim_start_idem (after_line after))
  | inl e ↦ elim (Option-cases (strip_prefix (codes "/*") s)) [
    | inl e' ↦ ground (arith, e, e')
    | inr (after, e') ↦ elim (Option-cases (after_comment after)) [
      | inl e'' ↦ ground (arith, e, e', e'', empty_is_trimmed)
      | inr (r, e'') ↦ ground (arith, e, e', e'', trim_start_idem r)
    ]
  ]
]

trims :
    (fuel : ℕ) (s : Str) → trim_start s ≡ s → trim_start (strip_noise fuel s) ≡ strip_noise fuel s
unfolding strip_noise
trims zero s h = h
trims (suc fuel) s h = elim (Option-cases (noise_step s)) [
  | inl e ↦ rw (strip_noise_stops fuel s e) h
  | inr (rest, e) ↦ rw (strip_noise_goes fuel s rest e) (trims fuel rest (noise_trims s rest e))
]

pub quiet_stays : (fuel : ℕ) (s : Str) → noise_step s ≡ none → strip_noise fuel s ≡ s
quiet_stays zero s e = strip_noise_zero s
quiet_stays (suc fuel) s e = strip_noise_stops fuel s e

no_prefix :
    (s : Str)
    → noise_step s ≡ none
    → (strip_prefix (codes "--") s ≡ none) × (strip_prefix (codes "/*") s ≡ none)
unfolding noise_step
no_prefix s h = elim (Option-cases (strip_prefix (codes "--") s)) [
  | inr (after, e) ↦ ground (arith, h, e)
  | inl e ↦ elim (Option-cases (strip_prefix (codes "/*") s)) [
    | inl e' ↦ (e, e')
    | inr (after, e') ↦ elim (Option-cases (after_comment after)) [
      | inl e'' ↦ ground (arith, h, e, e', e'')
      | inr (r, e'') ↦ ground (arith, h, e, e', e'')
    ]
  ]
]

-- What is left of a statement begins neither with a blank nor with the opening of a comment: the loop
-- has ended by itself, not for want of fuel, and a second call changes nothing.
pub noise_is_gone :
    (sql : Str)
    → (trim_start (strip_leading_noise sql) ≡ strip_leading_noise sql)
      × (strip_prefix (codes "--") (strip_leading_noise sql) ≡ none)
      × (strip_prefix (codes "/*") (strip_leading_noise sql) ≡ none)
      × (strip_leading_noise (strip_leading_noise sql) ≡ strip_leading_noise sql)
unfolding strip_leading_noise
noise_is_gone sql =
    let first = trim_start sql in
    let trimmed : trim_start (strip_noise (length sql) first) ≡ strip_noise (length sql) first =
      trims (length sql) first (trim_start_idem sql) in
    let quiet : noise_step (strip_noise (length sql) first) ≡ none =
      noise_ends (length sql) first (length-trim_start sql) in
    let (no_line, no_block) = no_prefix (strip_noise (length sql) first) quiet in
    (
      trimmed,
      no_line,
      no_block,
      rw trimmed (
          quiet_stays (length (strip_noise (length sql) first)) (strip_noise (length sql) first)
            quiet),
    )
