-- ===== src/Lexer/Rejoin.antt =====
-- What splitting keeps of the text, and of a statement (crates/havuz-pg/src/classify.rs).
use mathlib.Core.Path.{subst}
use havuz.Base.{
  ℕ, zero, suc, ◌≡◌, refl, ap, ◌∙◌, true, List, [], ◌∷◌, ◌++◌, ◌==◌, Bool-cases, Option-cases, ◌⊎◌,
  inl, inr, arith,
}
use havuz.Chars.{Str}
use havuz.Lexer.{hidden, or_zero, listed, split_from, split_statements}
use havuz.Lexer.Split.{split_hidden, split_plain, split_semicolon, hidden_kept}

-- The statements joined by semicolons.
unfoldable pub join : List Str → Str
join [] = []
join (s ∷ []) = s
join (s ∷ t ∷ more) = s ++ (b';' ∷ join (t ∷ more))

join_longer : (c : ℕ) (s : Str) (more : List Str) → join ((c ∷ s) ∷ more) ≡ c ∷ join (s ∷ more)
unfolding join
join_longer c s [] = refl
join_longer c s (t ∷ more) = refl

-- The joined statements are the text, or the text without the semicolon it ends with.
abbrev pub Rejoins : List Str → Str → Type 0
Rejoins statements sql = (join statements ≡ sql) ⊎ (join statements ++ b';' ∷ [] ≡ sql)

Rejoins-longer :
    (c : ℕ) (s : Str) (more : List Str) (sql : Str)
    → Rejoins (s ∷ more) sql
    → Rejoins ((c ∷ s) ∷ more) (c ∷ sql)
Rejoins-longer c s more sql (inl e) = inl (join_longer c s more ∙ ap (λ t. c ∷ t) e)
Rejoins-longer c s more sql (inr e) =
    inr (ap (λ t. t ++ b';' ∷ []) (join_longer c s more) ∙ ap (λ t. c ∷ t) e)

Rejoins-next :
    (cs s : Str) (more : List Str)
    → Rejoins (s ∷ more) cs
    → Rejoins ([] ∷ listed cs s more) (b';' ∷ cs)
unfolding join
Rejoins-next [] s more h = inr refl
Rejoins-next (c ∷ cs) s more (inl e) = inl (ap (λ t. b';' ∷ t) e)
Rejoins-next (c ∷ cs) s more (inr e) = inr (ap (λ t. b';' ∷ t) e)

is_semicolon : (c : ℕ) → (c == b';') ≡ true → b';' ≡ c
is_semicolon c h = ground (arith, h)

Rejoins-from :
    (skip : ℕ) (sql : Str) → Rejoins ((split_from skip sql).0 ∷ (split_from skip sql).1) sql
unfolding split_from join split_statements
Rejoins-from skip [] = inl refl
Rejoins-from (suc skip) (c ∷ cs) =
    Rejoins-longer c (split_from skip cs).0 (split_from skip cs).1 cs (Rejoins-from skip cs)
Rejoins-from zero (c ∷ cs) = elim (Option-cases (hidden c cs)) [
  | inr (n, e) ↦
      rw (split_hidden c n cs e)
        (Rejoins-longer c (split_from n cs).0 (split_from n cs).1 cs (Rejoins-from n cs))
  | inl e ↦ elim (Bool-cases (c == b';')) [
    | inl h ↦ rw (split_semicolon c cs e h) (
        subst (λ d. Rejoins ([] ∷ listed cs (split_from 0 cs).0 (split_from 0 cs).1) (d ∷ cs))
          (is_semicolon c h)
          (Rejoins-next cs (split_from 0 cs).0 (split_from 0 cs).1 (Rejoins-from 0 cs)))
    | inr h ↦
        rw (split_plain c cs e h)
          (Rejoins-longer c (split_from 0 cs).0 (split_from 0 cs).1 cs (Rejoins-from 0 cs))
  ]
]

-- Splitting loses nothing: the statements joined by semicolons are the text again, but for a
-- semicolon that the text ends with.
pub rejoins : (sql : Str) → Rejoins (split_statements sql) sql
unfolding split_statements join
rejoins [] = inl refl
rejoins (c ∷ cs) = Rejoins-from 0 (c ∷ cs)

alone :
    (skip : ℕ) (sql : Str) → split_from skip (split_from skip sql).0 ≡ ((split_from skip sql).0, [])
unfolding split_from
alone skip [] = refl
alone (suc skip) (c ∷ cs) = rw (alone skip cs) refl
alone zero (c ∷ cs) = elim (Option-cases (hidden c cs)) [
  | inr (n, e) ↦
      rw
        (
          split_hidden c n cs e,
          split_hidden c n (split_from n cs).0 (hidden_kept c n cs (ap or_zero e) ∙ e),
          alone n cs,
        )
        refl
  | inl e ↦ elim (Bool-cases (c == b';')) [
    | inl h ↦ rw (split_semicolon c cs e h) refl
    | inr h ↦
        rw
          (
            split_plain c cs e h,
            split_plain c (split_from 0 cs).0 (hidden_kept c 0 cs (ap or_zero e) ∙ e) h,
            alone 0 cs,
          )
          refl
  ]
]

-- Each statement is empty, or is one statement when it is split again.
abbrev pub AllSingle : List Str → Type 0
AllSingle [] = Unit {0}
AllSingle (s ∷ more) = ((s ≡ []) ⊎ (split_statements s ≡ s ∷ [])) × AllSingle more

single : (s : Str) → split_from 0 s ≡ (s, []) → (s ≡ []) ⊎ (split_statements s ≡ s ∷ [])
unfolding split_statements
single [] e = inl refl
single (c ∷ cs) e = inr (rw e refl)

listed_single :
    (cs s : Str) (more : List Str)
    → (s ≡ []) ⊎ (split_statements s ≡ s ∷ [])
    → AllSingle more
    → AllSingle (listed cs s more)
listed_single [] s more one all = tt
listed_single (c ∷ cs) s more one all = (one, all)

all_single : (skip : ℕ) (sql : Str) → AllSingle (split_from skip sql).1
unfolding split_from split_statements
all_single skip [] = tt
all_single (suc skip) (c ∷ cs) = all_single skip cs
all_single zero (c ∷ cs) = elim (Option-cases (hidden c cs)) [
  | inr (n, e) ↦ rw (split_hidden c n cs e) (all_single n cs)
  | inl e ↦ elim (Bool-cases (c == b';')) [
    | inl h ↦ rw (split_semicolon c cs e h) (
        listed_single cs (split_from 0 cs).0 (split_from 0 cs).1
          (single (split_from 0 cs).0 (alone 0 cs)) (all_single 0 cs))
    | inr h ↦ rw (split_plain c cs e h) (all_single 0 cs)
  ]
]

-- A statement splits no further: each one that is not empty is, split again, itself alone.
pub statements_are_single : (sql : Str) → AllSingle (split_statements sql)
unfolding split_statements
statements_are_single sql =
    listed_single sql (split_from 0 sql).0 (split_from 0 sql).1
      (single (split_from 0 sql).0 (alone 0 sql)) (all_single 0 sql)
