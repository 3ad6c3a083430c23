-- ===== src/Prelude/Text.antt =====
-- What the code uses of Rust's `str`: trimming, blank tests, and the search for a character.
use Prim.Native.Char.{Char, code}
use Prim.Native.Nat.{ℕ, ◌+◌}
use Prim.Native.String.{String, [], ◌∷◌, ◌++◌}
use mathlib.Core.List.{List}
use mathlib.Core.Bool.{Bool, true, false, ◌&&◌, ◌||◌}
use opencode_native_memory.Prelude.Tests.{leb, ◌==◌, if◌then◌else◌}

-- `char::is_whitespace`, the code points with the Unicode property White_Space
unfoldable pub is_whitespace : ℕ → Bool
is_whitespace c =
    (leb 9 c && leb c 13)
    || c == 32
    || c == 0x85
    || c == 0xa0
    || c == 0x1680
    || (leb 0x2000 c && leb c 0x200a)
    || c == 0x2028
    || c == 0x2029
    || c == 0x202f
    || c == 0x205f
    || c == 0x3000

-- `str::is_empty`
abbrev pub is_empty : String → Bool
is_empty [] = true
is_empty (c ∷ s) = false

unfoldable pub trim_start : String → String
unfolding is_whitespace
trim_start [] = []
trim_start (c ∷ s) = let rest = trim_start s in if is_whitespace (code c) then rest else c ∷ s

unfoldable pub trim_end : String → String
unfolding is_whitespace
trim_end [] = []
trim_end (c ∷ s) =
    let rest = trim_end s in if is_whitespace (code c) && is_empty rest then [] else c ∷ rest

-- `str::trim`
unfoldable pub trim : String → String
unfolding trim_start trim_end
trim s = trim_end (trim_start s)

-- `s.trim().is_empty()`
abbrev pub is_blank : String → Bool
is_blank s = is_empty (trim s)

-- `s.contains(c)` for a character
unfoldable pub contains_char : ℕ → String → Bool
contains_char n [] = false
contains_char n (c ∷ s) = code c == n || contains_char n s

-- `value.trim_matches(['\'', '"'])`
abbrev is_quote : ℕ → Bool
is_quote n = n == 39 || n == 34

unfoldable pub unquote_start : String → String
unquote_start [] = []
unquote_start (c ∷ s) = let rest = unquote_start s in if is_quote (code c) then rest else c ∷ s

unfoldable pub unquote_end : String → String
unquote_end [] = []
unquote_end (c ∷ s) =
    let rest = unquote_end s in if is_quote (code c) && is_empty rest then [] else c ∷ rest

unfoldable pub any_char : (ℕ → Bool) → String → Bool
any_char p [] = false
any_char p (c ∷ s) = p (code c) || any_char p s

unfoldable pub all_chars : (ℕ → Bool) → String → Bool
all_chars p [] = true
all_chars p (c ∷ s) = p (code c) && all_chars p s

abbrev is_upper : ℕ → Bool
is_upper n = leb b'A' n && leb n b'Z'

abbrev pub is_ascii_alphanumeric : ℕ → Bool
is_ascii_alphanumeric n = (leb b'0' n && leb n b'9') || is_upper n || (leb b'a' n && leb n b'z')

-- `to_ascii_lowercase`
lower_in : String → String → Char → Char
lower_in [] lower c = c
lower_in (u ∷ us) [] c = c
lower_in (u ∷ us) (l ∷ ls) c = if code c == code u then l else lower_in us ls c

unfoldable pub to_ascii_lowercase : String → String
unfolding lower_in
to_ascii_lowercase [] = []
to_ascii_lowercase (c ∷ s) =
    lower_in "ABCDEFGHIJKLMNOPQRSTUVWXYZ" "abcdefghijklmnopqrstuvwxyz" c ∷ to_ascii_lowercase s

-- `str::len`: the length in bytes of the UTF-8 encoding
abbrev pub utf8_width : ℕ → ℕ
utf8_width c = if leb c 0x7f then 1 else if leb c 0x7ff then 2 else if leb c 0xffff then 3 else 4

unfoldable pub byte_length : String → ℕ
byte_length [] = 0
byte_length (c ∷ s) = utf8_width (code c) + byte_length s

-- `str::split_whitespace`: the text up to the first white space, and the words after it
words_of : String → String × List String
unfolding is_whitespace
words_of [] = ("", List.[])
words_of (c ∷ s) =
    let (first, rest) = words_of s in
    let all = if is_empty first then rest else List.◌∷◌ first rest in
    if is_whitespace (code c) then ("", all) else (c ∷ first, rest)

unfoldable pub split_whitespace : String → List String
unfolding words_of
split_whitespace s =
    let (first, rest) = words_of s in if is_empty first then rest else List.◌∷◌ first rest

-- `[String]::join`
unfoldable pub join : String → List String → String
join separator List.[] = ""
join separator (List.◌∷◌ w ws) =
    let rest = join separator ws in
    elim ws [ List.[] ↦ w | List.◌∷◌ _ _ ↦ w ++ (separator ++ rest) ]
