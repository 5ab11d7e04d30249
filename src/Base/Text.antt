-- ===== src/Base/Text.antt =====
-- What the source uses of Go's package strings, over the characters of a text.
use Prim.Native.Nat.{ℕ, ◌+◌, ◌-◌, ◌*◌, ◌^◌}
use Prim.Native.Char.{code}
use Prim.Native.String.{String, ◌++◌}
use mathlib.Core.Bool.{Bool, true, false, ◌&&◌, ◌||◌}
use mathlib.Core.Option.{Option, none, some}
use mathlib.Core.List.{List, [], ◌∷◌}
use harness_forge.Base.Tests.{leb, ltb, ◌==◌, if◌then◌else◌}

-- unicode.IsSpace
unfoldable pub is_space : ℕ → Bool
is_space c =
    (leb 9 c && leb c 13)
    || c == 32
    || c == 0x85
    || c == 0xa0
    || c == 0x1680
    || (leb 0x2000 c && leb c 0x200a)
    || c == 0x2028
    || c == 0x2029
    || c == 0x202f
    || c == 0x205f
    || c == 0x3000

-- strings.TrimSpace(s) == ""
unfoldable pub is_blank : String → Bool
unfolding is_space
is_blank String.[] = true
is_blank (String.◌∷◌ c s) = is_space (code c) && is_blank s

-- strings.CutPrefix
unfoldable pub cut_prefix : String → String → Option String
cut_prefix String.[] s = some s
cut_prefix (String.◌∷◌ c p) String.[] = none
cut_prefix (String.◌∷◌ c p) (String.◌∷◌ d s) =
    let rest = cut_prefix p s in if code c == code d then rest else none

-- Go's + on strings
unfoldable pub concat : String → String → String
concat a b = a ++ b

abbrev pub empty_text : String → Bool
empty_text String.[] = true
empty_text (String.◌∷◌ c s) = false

unfoldable trim_left : String → String
trim_left String.[] = String.[]
trim_left (String.◌∷◌ c s) =
    let rest = trim_left s in if is_space (code c) then rest else String.◌∷◌ c s

unfoldable trim_right : String → String
trim_right String.[] = String.[]
trim_right (String.◌∷◌ c s) =
    let rest = trim_right s in
    if is_space (code c) && empty_text rest then String.[] else String.◌∷◌ c rest

-- strings.TrimSpace
unfoldable pub trim_space : String → String
unfolding trim_left trim_right
trim_space s = trim_left (trim_right s)

abbrev flush : String → List String → List String
flush word words = if empty_text word then words else word ∷ words

-- the word that a text begins with, and the words after it
split_fields : String → String × List String
split_fields String.[] = (String.[], [])
split_fields (String.◌∷◌ c s) =
    let (word, words) = split_fields s in
    if is_space (code c) then (String.[], flush word words) else (String.◌∷◌ c word, words)

-- strings.Fields
unfoldable pub fields_of : String → List String
unfolding split_fields
fields_of s = flush (split_fields s).0 (split_fields s).1

-- strings.Join(words, " ")
unfoldable pub join_words : List String → String
unfolding concat
join_words [] = ""
join_words (w ∷ []) = w
join_words (w ∷ v ∷ rest) = concat w (concat " " (join_words (v ∷ rest)))

-- the first n runes
unfoldable pub take_text : ℕ → String → String
take_text n String.[] = String.[]
take_text n (String.◌∷◌ c s) =
    let rest = take_text (n - 1) s in if n == 0 then String.[] else String.◌∷◌ c rest

-- strconv.ParseUint(raw, 10, 64): decimal digits, at least one, of a value below 2^64
parse_digits : ℕ → String → Option ℕ
parse_digits n String.[] = some n
parse_digits n (String.◌∷◌ c rest) =
    let d = code c in
    let more = parse_digits (n * 10 + (d - 48)) rest in
    if leb 48 d && leb d 57 && ltb (n * 10 + (d - 48)) (2 ^ 64) then more else none

unfoldable pub parse_uint : String → Option ℕ
unfolding parse_digits
parse_uint String.[] = none
parse_uint (String.◌∷◌ c rest) = parse_digits 0 (String.◌∷◌ c rest)

-- strings.Split(s, "/"): the segment that a text begins with, and the others
unfoldable pub split_from : String → String × List String
split_from String.[] = (String.[], [])
split_from (String.◌∷◌ c s) =
    let (segment, segments) = split_from s in
    if code c == b'/' then (String.[], segment ∷ segments) else (String.◌∷◌ c segment, segments)

unfoldable pub split_path : String → List String
unfolding split_from
split_path s = (split_from s).0 ∷ (split_from s).1

-- path.IsAbs
abbrev pub is_absolute : String → Bool
is_absolute String.[] = false
is_absolute (String.◌∷◌ c s) = code c == b'/'
