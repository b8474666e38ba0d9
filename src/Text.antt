-- ===== src/Text.antt =====
-- What src/trace_reader.cpp and src/main.cpp use of the standard library on text: std::stoull and
-- std::stoul (strtoull), and the searches of std::string. A text is the list of its bytes.
use Prim.Native.Char.{code}
use Prim.Native.String.{String}
use cache_hierarchy_simulato.Prelude.{
  ℕ, ◌+◌, ◌-◌, ◌*◌, Bool, true, false, ◌&&◌, ◌||◌, List, [], ◌∷◌, Option, none, some, ltb, leb,
  ◌==◌, if◌then◌else◌,
}
use cache_hierarchy_simulato.Word.{u64_mod, sub64}

abbrev pub Text : Type 0
Text = List ℕ

-- The bytes of an ASCII text.
abbrev pub codes : String → Text
codes String.[] = []
codes (String.◌∷◌ c s) = code c ∷ codes s

-- isspace of the C locale: blank, and the characters from tab to carriage return
abbrev pub is_space : ℕ → Bool
is_space c = c == 32 || (leb 9 c && leb c 13)

-- The characters of `" \t"`.
abbrev pub is_blank : ℕ → Bool
is_blank c = c == 32 || c == 9

unfoldable pub drop_space : Text → Text
drop_space [] = []
drop_space (c ∷ cs) = if is_space c then drop_space cs else c ∷ cs

unfoldable pub drop_blank : Text → Text
drop_blank [] = []
drop_blank (c ∷ cs) = if is_blank c then drop_blank cs else c ∷ cs

-- The text up to its last character that is not blank.
unfoldable pub trim_end : Text → Text
trim_end [] = []
trim_end (c ∷ cs) = elim (trim_end cs) [
  | [] ↦ if is_blank c then [] else c ∷ []
  | x ∷ xs ↦ c ∷ x ∷ xs
]

-- The value of a digit or letter; 36 is no digit of any base.
abbrev pub digit_value : ℕ → ℕ
digit_value c =
    if leb b'0' c && leb c b'9'
    then c - 48
    else (if leb b'a' c && leb c b'z'
        then c - 87
        else (if leb b'A' c && leb c b'Z' then c - 55 else 36))

abbrev pub starts_digit : ℕ → Text → Bool
starts_digit base [] = false
starts_digit base (c ∷ cs) = ltb (digit_value c) base

-- The number that the longest run of digits spells.
unfoldable pub digits_from : ℕ → ℕ → Text → ℕ
digits_from base acc [] = acc
digits_from base acc (c ∷ cs) =
    let rest = digits_from base (acc * base + digit_value c) cs in
    if ltb (digit_value c) base then rest else acc

abbrev pub sign : Text → Bool × Text
sign [] = (false, [])
sign (c ∷ cs) =
    if c == b'-' then (true, cs) else (if c == b'+' then (false, cs) else (false, c ∷ cs))

-- An `0x` before a digit is passed over in base 16.
abbrev pub drop_prefix : ℕ → Text → Text
drop_prefix base (c ∷ x ∷ cs) =
    if (base == 16 && c == b'0') && ((x == b'x' || x == b'X') && starts_digit base cs)
    then cs
    else c ∷ x ∷ cs
drop_prefix base (c ∷ []) = c ∷ []
drop_prefix base [] = []

-- std::stoull, and std::stoul where unsigned long has 64 bits; none is an exception. A number after
-- `-` is negated modulo 2^64, and what follows the digits is ignored.
unfoldable pub stoull : ℕ → Text → Option ℕ
unfolding drop_space digits_from
stoull base t =
    let (negative, unsigned) = sign (drop_space t) in
    let digits = drop_prefix base unsigned in
    let value = digits_from base 0 digits in
    if starts_digit base digits && ltb value u64_mod
    then some (if negative then sub64 0 value else value)
    else none
