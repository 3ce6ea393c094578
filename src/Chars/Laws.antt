-- ===== src/Chars/Laws.antt =====
-- Texts and their beginnings: what trimming at the end leaves of the first word.
use havuz.Base.{ℕ, ◌≡◌, refl, sym, ap, ◌∙◌, [], ◌∷◌, ◌++◌, ◌==◌, Bool-cases, inl, inr}
use havuz.Chars.{Str, is_blank, trim_end, without_suffix}

-- The first text is the beginning of the second.
abbrev pub IsPrefix : Str → Str → Type 0
IsPrefix p s = (rest : Str) × (p ++ rest ≡ s)

IsPrefix-cons : (c : ℕ) (p s : Str) → IsPrefix p s → IsPrefix (c ∷ p) (c ∷ s)
IsPrefix-cons c p s (rest, e) = (rest, ap (λ t. c ∷ t) e)

append_assoc : (a b c : Str) → (a ++ b) ++ c ≡ a ++ (b ++ c)
append_assoc [] b c = refl
append_assoc (x ∷ a) b c = ap (λ t. x ∷ t) (append_assoc a b c)

pub IsPrefix-trans : (a b c : Str) → IsPrefix a b → IsPrefix b c → IsPrefix a c
IsPrefix-trans a b c (r, e) (q, f) = (r ++ q, sym (append_assoc a r q) ∙ (ap (λ t. t ++ q) e ∙ f))

pub trim_end-IsPrefix : (s : Str) → IsPrefix (trim_end s) s
unfolding trim_end
trim_end-IsPrefix [] = ([], refl)
trim_end-IsPrefix (c ∷ cs) = elim (Bool-cases (is_blank (c ∷ cs))) [
  | inl e ↦ rw e (c ∷ cs, refl)
  | inr e ↦ rw e (IsPrefix-cons c (trim_end cs) cs (trim_end-IsPrefix cs))
]

pub without_suffix-IsPrefix : (c : ℕ) (s : Str) → IsPrefix (without_suffix c s) s
unfolding without_suffix
without_suffix-IsPrefix c [] = ([], refl)
without_suffix-IsPrefix c (d ∷ []) = elim (Bool-cases (d == c)) [
  | inl e ↦ rw e (d ∷ [], refl)
  | inr e ↦ rw e ([], refl)
]
without_suffix-IsPrefix c (d ∷ e ∷ s) =
    IsPrefix-cons d (without_suffix c (e ∷ s)) (e ∷ s) (without_suffix-IsPrefix c (e ∷ s))
