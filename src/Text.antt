-- ===== src/Text.antt =====
-- What the sources use of Rust's `str`: `trim`, `lines` and `split_whitespace`, on the bytes of
-- UTF-8 text.
use picosignet.Prelude.{
  ℕ, Bool, true, false, ◌&&◌, ◌||◌, List, [], ◌∷◌, ◌++◌, map, leb, ◌==◌, if◌then◌else◌,
}
use picosignet.Prelude.Bytes.{Bytes}

-- Whether a byte continues a character.
unfoldable pub continues : Bytes → Bool
continues [] = false
continues (c ∷ cs) = leb 128 c && leb c 191

unfoldable pub join_char : ℕ → List Bytes → List Bytes
join_char c [] = (c ∷ []) ∷ []
join_char c (k ∷ ks) = if continues k then (c ∷ k) ∷ ks else (c ∷ []) ∷ (k ∷ ks)

-- The characters of a text, each one as its bytes.
unfoldable pub chars : Bytes → List Bytes
chars [] = []
chars (c ∷ cs) = join_char c (chars cs)

-- `char::is_whitespace`: the code points with the property White_Space.
unfoldable pub is_white : Bytes → Bool
is_white (a ∷ []) = a == 0x20 || (leb 0x09 a && leb a 0x0d)
is_white (a ∷ b ∷ []) = a == 0xc2 && (b == 0x85 || b == 0xa0)
is_white (a ∷ b ∷ c ∷ []) =
    (a == 0xe1 && (b == 0x9a && c == 0x80))
    || ((a == 0xe2
          && (b == 0x80 && (leb 0x80 c && leb c 0x8a || (c == 0xa8 || (c == 0xa9 || c == 0xaf)))
              || (b == 0x81 && c == 0x9f)))
        || (a == 0xe3 && (b == 0x80 && c == 0x80)))
is_white _ = false

unfoldable pub join : List Bytes → Bytes
join [] = []
join (k ∷ ks) = k ++ join ks

unfoldable pub trim_start : List Bytes → List Bytes
trim_start [] = []
trim_start (k ∷ ks) = if is_white k then trim_start ks else k ∷ ks

unfoldable pub trim_end : List Bytes → List Bytes
trim_end [] = []
trim_end (k ∷ ks) = elim (trim_end ks) [
  | [] ↦ if is_white k then [] else k ∷ []
  | l ∷ ls ↦ k ∷ (l ∷ ls)
]

unfoldable pub trim : Bytes → Bytes
trim s = join (trim_end (trim_start (chars s)))

-- `is_empty`
abbrev pub is_nil : Bytes → Bool
is_nil [] = true
is_nil (c ∷ cs) = false

-- The word that a character begins or goes on with, and the words after it; the first word is empty
-- where the text begins with a space.
unfoldable pub split_words : List Bytes → Bytes × List Bytes
split_words [] = ([], [])
split_words (k ∷ ks) =
    let (word, words) = split_words ks in
    if is_white k then ([], (if is_nil word then words else word ∷ words)) else (k ++ word, words)

unfoldable pub split_whitespace : Bytes → List Bytes
split_whitespace s =
    let (word, words) = split_words (chars s) in if is_nil word then words else word ∷ words

-- `str::lines`: the pieces between line feeds, a last empty one left out, a carriage return at a
-- piece's end removed.
unfoldable pub split_lines : Bytes → List Bytes
split_lines [] = []
split_lines (c ∷ cs) =
    if c == 10
    then [] ∷ split_lines cs
    else elim (split_lines cs) [ [] ↦ (c ∷ []) ∷ [] | l ∷ ls ↦ (c ∷ l) ∷ ls ]

unfoldable pub strip_cr : Bytes → Bytes
strip_cr [] = []
strip_cr (c ∷ []) = if c == 13 then [] else c ∷ []
strip_cr (c ∷ d ∷ cs) = c ∷ strip_cr (d ∷ cs)

unfoldable pub lines : Bytes → List Bytes
lines s = map strip_cr (split_lines s)
