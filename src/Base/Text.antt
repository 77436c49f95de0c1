-- ===== src/Base/Text.antt =====
-- Python's `str.strip` and the blank test `not value.strip()`.
use Prim.Native.Nat.{ℕ, ◌+◌}
use Prim.Native.Char.{Char, code}
use Prim.Native.String.{String}
use mathlib.Core.Bool.{Bool, true, ◌&&◌, ◌||◌}
use mathlib.Core.Path.{◌≡◌, refl}
use marketpilot.Base.Tests.{leb, nat_eq, if◌then◌else◌}

-- `str.isspace` of one character: the code points that Python calls whitespace.
unfoldable pub is_space : ℕ → Bool
is_space c =
    leb 9 c && leb c 13
    || leb 28 c && leb c 32
    || nat_eq c 133
    || nat_eq c 160
    || nat_eq c 5760
    || leb 8192 c && leb c 8202
    || nat_eq c 8232
    || nat_eq c 8233
    || nat_eq c 8239
    || nat_eq c 8287
    || nat_eq c 12288

-- `len(value)`
abbrev pub text_length : String → ℕ
text_length String.[] = 0
text_length (String.◌∷◌ c s) = text_length s + 1

-- `not value.strip()`
unfoldable pub is_blank : String → Bool
unfolding is_space
is_blank String.[] = true
is_blank (String.◌∷◌ c s) = is_space (code c) && is_blank s

unfoldable pub strip_left : String → String
unfolding is_space
strip_left String.[] = String.[]
strip_left (String.◌∷◌ c s) =
    let rest = strip_left s in if is_space (code c) then rest else String.◌∷◌ c s

snoc_strip : Char → String → String
unfolding is_space
snoc_strip c String.[] = if is_space (code c) then String.[] else String.◌∷◌ c String.[]
snoc_strip c (String.◌∷◌ d s) = String.◌∷◌ c (String.◌∷◌ d s)

unfoldable pub strip_right : String → String
unfolding snoc_strip
strip_right String.[] = String.[]
strip_right (String.◌∷◌ c s) = snoc_strip c (strip_right s)

-- `value.strip()`
unfoldable pub strip : String → String
unfolding strip_left strip_right
strip s = strip_left (strip_right s)

strip_run : strip "  a b\t " ≡ "a b"
unfolding strip
strip_run = refl
