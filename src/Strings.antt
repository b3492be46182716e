-- ===== src/Strings.antt =====
-- What the program uses of Go's `strings` and `strconv`, over the characters of a text.
use Prim.Native.Nat.{◌^◌, ◌/◌, ◌%◌}
use Prim.Native.Char.{Char, code}
use dra_driver_spyre.Prelude.{
  ◌≡◌, refl, ℕ, zero, suc, ◌+◌, ◌-◌, ◌*◌, String, Bool, true, false, ◌&&◌, ◌||◌, Option, none, some,
  leb, ltb, eqb, if◌then◌else◌, List, [], ◌∷◌,
}
use dra_driver_spyre.Prelude.Int.{ℤ, pos, negsuc}

-- s[:dot] and s[dot+1:] for dot = strings.LastIndex(s, "."), and `none` for dot < 0
unfoldable pub split_last_dot : String → Option (String × String)
split_last_dot String.[] = none
split_last_dot (String.◌∷◌ c s) = elim (split_last_dot s) [
  | some (before, after) ↦ some (String.◌∷◌ c before, after)
  | none ↦ if eqb (code c) b'.' then some (String.[], s) else none
]

-- s + t
unfoldable pub str_append : String → String → String
str_append String.[] t = t
str_append (String.◌∷◌ c s) t = String.◌∷◌ c (str_append s t)

-- strings.Join
unfoldable pub join_with : String → List String → String
join_with sep [] = ""
join_with sep (s ∷ []) = s
join_with sep (s ∷ t ∷ rest) = str_append s (str_append sep (join_with sep (t ∷ rest)))

-- The value of a digit, up to base 36.
unfoldable pub digit_value : ℕ → Option ℕ
digit_value c =
    if leb b'0' c && leb c b'9'
    then some (c - b'0')
    else if leb b'a' c && leb c b'z'
    then some (c - b'a' + 10)
    else if leb b'A' c && leb c b'Z'
    then some (c - b'A' + 10)
    else none

-- digits to the end of the text, each below the base
unfoldable pub parse_digits : ℕ → ℕ → String → Option ℕ
parse_digits base n String.[] = some n
parse_digits base n (String.◌∷◌ c s) =
    let rest = λ (d : ℕ). parse_digits base (n * base + d) s in
    elim (digit_value (code c)) [ none ↦ none | some d ↦ if ltb d base then rest d else none ]

-- an unsigned number, which has at least one digit
unfoldable pub parse_unsigned : ℕ → String → Option ℕ
parse_unsigned base String.[] = none
parse_unsigned base (String.◌∷◌ c s) = parse_digits base 0 (String.◌∷◌ c s)

in_int64 : Bool → Option ℕ → Option ℤ
in_int64 neg none = none
in_int64 false (some n) = if ltb n (2 ^ 63) then some (pos n) else none
in_int64 true (some zero) = some (pos 0)
in_int64 true (some (suc n)) = if ltb n (2 ^ 63) then some (negsuc n) else none

-- strconv.ParseInt(s, base, 64) for a base given outright, and strconv.Atoi for base 10: an optional
-- sign, digits, and the range of int64
unfoldable pub parse_int : ℕ → String → Option ℤ
unfolding in_int64
parse_int base String.[] = none
parse_int base (String.◌∷◌ c s) =
    if eqb (code c) b'-'
    then in_int64 true (parse_unsigned base s)
    else if eqb (code c) b'+'
    then in_int64 false (parse_unsigned base s)
    else in_int64 false (parse_unsigned base (String.◌∷◌ c s))

-- unicode.IsSpace
unfoldable pub is_space : ℕ → Bool
is_space c =
    (leb 0x09 c && leb c 0x0d)
    || eqb c 0x20
    || eqb c 0x85
    || eqb c 0xa0
    || eqb c 0x1680
    || (leb 0x2000 c && leb c 0x200a)
    || eqb c 0x2028
    || eqb c 0x2029
    || eqb c 0x202f
    || eqb c 0x205f
    || eqb c 0x3000

-- strings.TrimSpace
unfoldable pub trim_left : String → String
trim_left String.[] = String.[]
trim_left (String.◌∷◌ c s) =
    let rest = trim_left s in if is_space (code c) then rest else String.◌∷◌ c s

unfoldable pub trim_right : String → String
trim_right String.[] = String.[]
trim_right (String.◌∷◌ c s) = elim (trim_right s) [
  | String.[] ↦ if is_space (code c) then String.[] else String.◌∷◌ c String.[]
  | String.◌∷◌ d t ↦ String.◌∷◌ c (String.◌∷◌ d t)
]

unfoldable pub trim_space : String → String
trim_space s = trim_right (trim_left s)

-- strings.Contains
unfoldable pub begins_with : String → String → Bool
begins_with s String.[] = true
begins_with String.[] (String.◌∷◌ d t) = false
begins_with (String.◌∷◌ c s) (String.◌∷◌ d t) = eqb (code c) (code d) && begins_with s t

unfoldable pub contains_text : String → String → Bool
contains_text String.[] t = begins_with String.[] t
contains_text (String.◌∷◌ c s) t = begins_with (String.◌∷◌ c s) t || contains_text s t

-- strconv.Itoa
unfoldable pub digit_char : ℕ → Char
digit_char zero = "0"
digit_char (suc zero) = "1"
digit_char (suc (suc zero)) = "2"
digit_char (suc (suc (suc zero))) = "3"
digit_char (suc (suc (suc (suc zero)))) = "4"
digit_char (suc (suc (suc (suc (suc zero))))) = "5"
digit_char (suc (suc (suc (suc (suc (suc zero)))))) = "6"
digit_char (suc (suc (suc (suc (suc (suc (suc zero))))))) = "7"
digit_char (suc (suc (suc (suc (suc (suc (suc (suc zero)))))))) = "8"
digit_char _ = "9"

-- the digits of n before the text; a number has at most as many digits as its value plus one
unfoldable pub print_digits : ℕ → ℕ → String → String
print_digits zero n text = text
print_digits (suc fuel) n text =
    let out = String.◌∷◌ (digit_char (n % 10)) text in
    elim (ltb n 10) [ true ↦ out | false ↦ print_digits fuel (n / 10) out ]

unfoldable pub print_nat : ℕ → String
print_nat n = print_digits (suc n) n ""

unfoldable pub itoa : ℤ → String
itoa (pos n) = print_nat n
itoa (negsuc n) = str_append "-" (print_nat (suc n))

itoa_test : itoa (pos 1207) ≡ "1207"
unfolding itoa print_nat print_digits digit_char
itoa_test = refl

-- strings.TrimPrefix
after_prefix : String → String → Option String
after_prefix s String.[] = some s
after_prefix String.[] (String.◌∷◌ d t) = none
after_prefix (String.◌∷◌ c s) (String.◌∷◌ d t) =
    let rest = after_prefix s t in if eqb (code c) (code d) then rest else none

unfoldable pub trim_prefix : String → String → String
unfolding after_prefix
trim_prefix s prefix = elim (after_prefix s prefix) [ none ↦ s | some rest ↦ rest ]
