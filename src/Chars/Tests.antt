-- ===== src/Chars/Tests.antt =====
-- The operations on texts, run.
use havuz.Base.{◌≡◌, refl, true, [], ◌∷◌}
use havuz.Chars.{
  codes, trim, split_whitespace, contains, from_utf8_lossy, utf8, without_suffix,
  to_ascii_uppercase,
}

words_split :
    split_whitespace (codes "  set  a\n= 1 ") ≡ codes "set" ∷ codes "a" ∷ codes "=" ∷ codes "1" ∷ []
unfolding split_whitespace
words_split = refl

trimmed : trim (codes " \t a b  ") ≡ codes "a b"
unfolding trim
trimmed = refl

found : contains (codes "FOR UPDATE") (to_ascii_uppercase (codes "select 1 for update")) ≡ true
unfolding contains to_ascii_uppercase
found = refl

semicolon_goes : without_suffix b';' (codes "set a = 1;") ≡ codes "set a = 1"
unfolding without_suffix
semicolon_goes = refl

decoded : from_utf8_lossy (195 ∷ 169 ∷ 226 ∷ 130 ∷ 65 ∷ 255 ∷ []) ≡ 233 ∷ 65_533 ∷ 65 ∷ 65_533 ∷ []
unfolding from_utf8_lossy
decoded = refl

encoded : utf8 8364 ≡ 226 ∷ 130 ∷ 172 ∷ []
unfolding utf8
encoded = refl
