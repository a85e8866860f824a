-- ===== src/Text.antt =====
-- Python's `str.split()` and `int(text)`, on lists of code points. Both belong to the language's
-- library; `int` reads ASCII digits only (Python also takes other decimal digits).
use signal_observatory.Prelude.{
  ℕ, ◌+◌, ◌-◌, ◌*◌, suc, zero, ◌≡◌, refl, Bool, true, false, not, ◌&&◌, ◌||◌, Option, none, some,
  List, [], ◌∷◌, ◌++◌, leb, ◌==◌, if◌then◌else◌, is_empty, String,
}
use Prim.Native.Char.{code}

abbrev pub Text : Type 0
Text = List ℕ

-- A literal's code points.
abbrev pub codes : String → Text
codes String.[] = []
codes (String.◌∷◌ c s) = code c ∷ codes s

-- The characters that `str.split` splits at.
is_space : ℕ → Bool
is_space c =
    (leb 9 c && leb c 13)
    || (leb 28 c && leb c 32)
    || c == 133
    || c == 160
    || c == 5760
    || (leb 8192 c && leb c 8202)
    || c == 8232
    || c == 8233
    || c == 8239
    || c == 8287
    || c == 12288

split_from : Text → Text → List Text
unfolding is_space
split_from [] word = if is_empty word then [] else word ∷ []
split_from (c ∷ cs) word =
    let rest = split_from cs (if is_space c then [] else word ++ (c ∷ [])) in
    if is_space c && not (is_empty word) then word ∷ rest else rest

unfoldable pub split : Text → List Text
unfolding split_from
split s = split_from s []

abbrev pub text_eq : Text → Text → Bool
text_eq [] [] = true
text_eq (a ∷ as') (b ∷ bs) = a == b && text_eq as' bs
text_eq _ _ = false

-- `negsuc n` is -(n + 1).
pub data ℤ : Type 0 where
  pos : ℕ → ℤ
  negsuc : ℕ → ℤ

is_digit : ℕ → Bool
is_digit c = leb b'0' c && leb c b'9'

-- Digits, with single underscores between two of them; the flag tells whether the last was a digit.
digits_from : Text → Bool → ℕ → Option ℕ
unfolding is_digit
digits_from [] last acc = if last then some acc else none
digits_from (c ∷ cs) last acc =
    let rest = digits_from cs (is_digit c) (if is_digit c then acc * 10 + (c - b'0') else acc) in
    if is_digit c || (c == b'_' && last) then rest else none

negate : ℕ → ℤ
negate zero = pos 0
negate (suc n) = negsuc n

-- `int(text)`; `none` stands for its `ValueError`.
unfoldable pub int : Text → Option ℤ
unfolding digits_from negate
int [] = none
int (c ∷ cs) =
    if c == b'-'
    then elim (digits_from cs false 0) [ none ↦ none | some n ↦ some (negate n) ]
    else (if c == b'+'
        then elim (digits_from cs false 0) [ none ↦ none | some n ↦ some (pos n) ]
        else elim (digits_from (c ∷ cs) false 0) [ none ↦ none | some n ↦ some (pos n) ])

split_example :
    split (codes "30  6 * * *") ≡ codes "30" ∷ codes "6" ∷ codes "*" ∷ codes "*" ∷ codes "*" ∷ []
unfolding split
split_example = refl

int_example : int (codes "-1_05") ≡ some (negsuc 104)
unfolding int
int_example = refl
