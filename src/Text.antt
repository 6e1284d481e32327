-- ===== src/Text.antt =====
-- Rust's `String` and `str`: the list of the text's `char`s, with the length in UTF-8 bytes and
-- `trim`, as the standard library documents them.
pub mod Laws
use Prim.Native.Char.{code}
use Prim.Native.String.{String}
use vtnet.Base.{
  ℕ, ◌+◌, Bool, true, false, ◌&&◌, ◌||◌, List, [], ◌∷◌, ltb, leb, if◌then◌else◌, ◌==◌, nat_eq,
}

abbrev pub Text : Type 0
Text = List ℕ

-- The characters of a literal.
abbrev pub codes : String → Text
codes String.[] = []
codes (String.◌∷◌ c s) = code c ∷ codes s

-- `char::len_utf8`
unfoldable pub len_utf8 : ℕ → ℕ
len_utf8 c = if ltb c 0x80 then 1 else if ltb c 0x800 then 2 else if ltb c 0x10000 then 3 else 4

-- `str::len`, in bytes
unfoldable pub len : Text → ℕ
len [] = 0
len (c ∷ s) = len_utf8 c + len s

-- `char::is_whitespace`: the Unicode property White_Space
unfoldable pub is_whitespace : ℕ → Bool
is_whitespace c =
    leb 0x09 c && leb c 0x0d
    || c == 0x20
    || c == 0x85
    || c == 0xa0
    || c == 0x1680
    || leb 0x2000 c && leb c 0x200a
    || c == 0x2028
    || c == 0x2029
    || c == 0x202f
    || c == 0x205f
    || c == 0x3000

unfoldable pub trim_start : Text → Text
trim_start [] = []
trim_start (c ∷ s) = let rest = trim_start s in if is_whitespace c then rest else c ∷ s

-- `str::is_empty`
abbrev pub is_empty : Text → Bool
is_empty [] = true
is_empty (c ∷ s) = false

unfoldable pub trim_end : Text → Text
trim_end [] = []
trim_end (c ∷ s) =
    let rest = trim_end s in if is_empty rest && is_whitespace c then [] else c ∷ rest

-- `str::trim`
unfoldable pub trim : Text → Text
unfolding trim_start trim_end
trim s = trim_end (trim_start s)
