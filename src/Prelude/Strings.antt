-- ===== src/Prelude/Strings.antt =====
-- Text that the program only compares (identifiers, tool names, ticker symbols) is a `String`; text
-- that it walks is the list of its code points.
use Prim.Native.Nat.{ℕ}
use Prim.Native.String.{String, compare}
use Prim.Native.Char.{code}
use mathlib.Core.Path.{◌≡◌, refl}
use mathlib.Core.Bool.{Bool, true, false, ◌&&◌, ◌||◌}
use mathlib.Core.List.{List, [], ◌∷◌, ◌++◌, reverse}
use native.Mathlib.Omega.{arith}
use mathlib.Core.Logic.{◌↔◌}
use text.Mathlib.Text.{is_le, ◌==◌ as same_text}
use text.Mathlib.TextEquality.{eq_iff}
use caqrs.Prelude.Tests.{if◌then◌else◌, leb, ◌==◌}

-- `a == b` on `str`.
abbrev pub str_eq : String → String → Bool
str_eq a b = same_text a b

-- `a <= b` on `str`: by code points, which is the byte order of UTF-8.
abbrev pub str_le : String → String → Bool
str_le a b = is_le (compare a b)

pub str_eq_iff : (a b : String) → (str_eq a b ≡ true) ↔ (a ≡ b)
str_eq_iff a b = eq_iff a b

pub str_eq_refl : (a : String) → str_eq a a ≡ true
str_eq_refl a = (eq_iff a a).1 refl

-- `x in xs` on a collection of texts.
unfoldable pub contains : String → List String → Bool
contains x [] = false
contains x (y ∷ ys) = let rest = contains x ys in if same_text x y then true else rest

abbrev pub Text : Type 0
Text = List ℕ

-- `str.isspace` on one code point.
unfoldable pub is_space : ℕ → Bool
is_space c =
    (leb 9 c && leb c 13)
    || (leb 28 c && leb c 32)
    || c == 133
    || c == 160
    || c == 5760
    || (leb 8192 c && leb c 8202)
    || c == 8232
    || c == 8233
    || c == 8239
    || c == 8287
    || c == 12288

-- `s.split()`; `word` is what was read of the current word, its last character first.
unfoldable pub split_from : Text → Text → List Text
split_from [] [] = []
split_from (c ∷ word) [] = reverse (c ∷ word) ∷ []
split_from [] (c ∷ cs) =
    let skipped = split_from [] cs in
    let longer = split_from (c ∷ []) cs in if is_space c then skipped else longer
split_from (d ∷ word) (c ∷ cs) =
    let ended = reverse (d ∷ word) ∷ split_from [] cs in
    let longer = split_from (c ∷ d ∷ word) cs in if is_space c then ended else longer

unfoldable pub split : Text → List Text
unfolding split_from is_space
split s = split_from [] s

-- `" ".join(words)`
unfoldable pub join_spaces : List Text → Text
join_spaces [] = []
join_spaces (word ∷ []) = word
join_spaces (word ∷ next ∷ rest) = word ++ (b' ' ∷ join_spaces (next ∷ rest))

-- `a == b` on text that is walked.
unfoldable pub text_eq : Text → Text → Bool
text_eq [] [] = true
text_eq (a ∷ s) (b ∷ t) = a == b && text_eq s t
text_eq _ _ = false

pub text_eq_sound : (s t : Text) → text_eq s t ≡ true → s ≡ t
unfolding text_eq
text_eq_sound [] [] h = refl
text_eq_sound [] (b ∷ t) h = cc
text_eq_sound (a ∷ s) [] h = cc
text_eq_sound (a ∷ s) (b ∷ t) h = ground (arith, text_eq_sound s t)

pub text_eq_refl : (s : Text) → text_eq s s ≡ true
unfolding text_eq
text_eq_refl [] = refl
text_eq_refl (a ∷ s) = ground (arith, text_eq_refl s)

-- The code points of a text. `String` has its own `[]` and `∷`.
unfoldable pub codes : String → Text
codes String.[] = []
codes (String.◌∷◌ c s) = code c ∷ codes s

-- `", ".join(texts)`
unfoldable pub join_commas : List Text → Text
join_commas [] = []
join_commas (t ∷ []) = t
join_commas (t ∷ u ∷ rest) = t ++ (b',' ∷ b' ' ∷ join_commas (u ∷ rest))
