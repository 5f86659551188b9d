-- ===== src/Text.antt =====
-- The parts of Rust's `str` and `char` that the crates call, over the code points that a `str`
-- holds. `to_lowercase` needs the Unicode tables and is a parameter where it is called.
pub mod Equality
pub mod Trim
pub mod Split
use Prim.Native.Char.{code}
use Prim.Native.String.{String}
use pg_mnestic.Prelude.{
  ℕ, ◌+◌, Option, none, some, Bool, true, false, ◌&&◌, ◌||◌, List, [], ◌∷◌, ◌++◌, leb, ◌==◌,
  if◌then◌else◌, is_empty,
}

abbrev pub Text : Type 0
Text = List ℕ

-- A literal's code points.
abbrev pub codes : String → Text
codes String.[] = []
codes (String.◌∷◌ c s) = code c ∷ codes s

-- `char::is_whitespace`: the code points with the Unicode property White_Space.
unfoldable pub is_whitespace : ℕ → Bool
is_whitespace c =
    leb 9 c && leb c 13
    || c == 32
    || c == 0x85
    || c == 0xA0
    || c == 0x1680
    || leb 0x2000 c && leb c 0x200A
    || c == 0x2028
    || c == 0x2029
    || c == 0x202F
    || c == 0x205F
    || c == 0x3000

-- `a == b` on strings.
unfoldable pub text_eq : Text → Text → Bool
text_eq [] [] = true
text_eq [] (d ∷ t) = false
text_eq (c ∷ s) [] = false
text_eq (c ∷ s) (d ∷ t) = c == d && text_eq s t

-- `a == b` on optional strings.
unfoldable pub opt_text_eq : Option Text → Option Text → Bool
opt_text_eq none none = true
opt_text_eq none (some t) = false
opt_text_eq (some s) none = false
opt_text_eq (some s) (some t) = text_eq s t

-- `char::to_ascii_lowercase` and `eq_ignore_ascii_case`.
unfoldable pub to_ascii_lowercase : ℕ → ℕ
to_ascii_lowercase c = if leb b'A' c && leb c b'Z' then c + 32 else c

unfoldable pub eq_ignore_ascii_case : Text → Text → Bool
unfolding to_ascii_lowercase
eq_ignore_ascii_case [] [] = true
eq_ignore_ascii_case [] (d ∷ t) = false
eq_ignore_ascii_case (c ∷ s) [] = false
eq_ignore_ascii_case (c ∷ s) (d ∷ t) =
    to_ascii_lowercase c == to_ascii_lowercase d && eq_ignore_ascii_case s t

-- `trim_start_matches(p)`, `trim_end_matches(p)` and `trim_matches(p)`.
unfoldable pub trim_start_matches : (ℕ → Bool) → Text → Text
trim_start_matches p [] = []
trim_start_matches p (c ∷ s) = if p c then trim_start_matches p s else c ∷ s

unfoldable pub trim_end_matches : (ℕ → Bool) → Text → Text
trim_end_matches p [] = []
trim_end_matches p (c ∷ s) =
    let rest = trim_end_matches p s in if p c && is_empty rest then [] else c ∷ rest

unfoldable pub trim_matches : (ℕ → Bool) → Text → Text
unfolding trim_start_matches trim_end_matches
trim_matches p s = trim_end_matches p (trim_start_matches p s)

unfoldable pub trim : Text → Text
unfolding trim_matches is_whitespace
trim = trim_matches is_whitespace

-- Put a character in front of the first piece.
abbrev pub onto_first : ℕ → List Text → List Text
onto_first c [] = (c ∷ []) ∷ []
onto_first c (w ∷ ws) = (c ∷ w) ∷ ws

-- `split(sep)` at a character: never empty, and an empty text gives one empty piece.
unfoldable pub split : ℕ → Text → List Text
split sep [] = [] ∷ []
split sep (c ∷ s) = if c == sep then [] ∷ split sep s else onto_first c (split sep s)

-- `join(sep)`.
unfoldable pub join : Text → List Text → Text
join sep [] = []
join sep (w ∷ []) = w
join sep (w ∷ v ∷ ws) = w ++ (sep ++ join sep (v ∷ ws))

-- The maximal runs of characters outside `p`, the first of them carried by `word`.
unfoldable pub words_of : (ℕ → Bool) → Text → Text → List Text
words_of p word [] = if is_empty word then [] else word ∷ []
words_of p word (c ∷ s) =
    let after_gap = words_of p [] s in
    let longer = words_of p (word ++ c ∷ []) s in
    if p c then (if is_empty word then after_gap else word ∷ after_gap) else longer

-- `split_whitespace()`.
unfoldable pub split_whitespace : Text → List Text
unfolding words_of is_whitespace
split_whitespace s = words_of is_whitespace [] s
