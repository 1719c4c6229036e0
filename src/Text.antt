-- ===== src/Text.antt =====
-- What the program uses of Python's texts: `strip`, `len`, comparison after `lower`, `str` of a
-- whole number and `int` of a text. Digits and case are those of ASCII.
pub mod Strip
use Prim.Native.Char.{Char, code}
use Prim.Native.String.{◌++◌ as join_text}
use qtable_server.Base.{
  ℕ, zero, suc, ◌+◌, ◌-◌, ◌*◌, ◌/◌, ◌%◌, String, Bool, true, false, Option, none, some, ◌&&◌, ◌||◌,
  ◌≡◌, refl, leb, ltb, ◌==◌, nat_eq, string_eq, if◌then◌else◌,
}
use mathlib.Core.Option
use qtable_server.Base.Int.{ℤ, pos, negsuc}

-- `str.isspace` of one character.
unfoldable pub is_space : Char → Bool
is_space c =
    let n = code c in
    (leb 9 n && leb n 13)
    || (leb 28 n && leb n 32)
    || n == 133
    || n == 160
    || n == 5760
    || (leb 8192 n && leb n 8202)
    || n == 8232
    || n == 8233
    || n == 8239
    || n == 8287
    || n == 12288

unfoldable pub lstrip : String → String
lstrip String.[] = String.[]
lstrip (String.◌∷◌ c s) = if is_space c then lstrip s else String.◌∷◌ c s

-- A space is dropped when nothing but spaces follows it.
abbrev pub keep_left : Char → String → String
keep_left c String.[] = if is_space c then String.[] else String.◌∷◌ c String.[]
keep_left c (String.◌∷◌ d s) = String.◌∷◌ c (String.◌∷◌ d s)

unfoldable pub rstrip : String → String
rstrip String.[] = String.[]
rstrip (String.◌∷◌ c s) = keep_left c (rstrip s)

unfoldable pub strip : String → String
strip s = rstrip (lstrip s)

-- `len(s)`
unfoldable pub char_count : String → ℕ
char_count String.[] = 0
char_count (String.◌∷◌ c s) = suc (char_count s)

-- `s[:n]`
unfoldable pub take_chars : ℕ → String → String
take_chars zero s = String.[]
take_chars (suc n) String.[] = String.[]
take_chars (suc n) (String.◌∷◌ c s) = String.◌∷◌ c (take_chars n s)

abbrev lower_code : ℕ → ℕ
lower_code n = if leb 65 n && leb n 90 then n + 32 else n

-- `s.lower() == t`, for a text `t` in lower case.
unfoldable pub lower_eq : String → String → Bool
lower_eq String.[] String.[] = true
lower_eq String.[] (String.◌∷◌ d t) = false
lower_eq (String.◌∷◌ c s) String.[] = false
lower_eq (String.◌∷◌ c s) (String.◌∷◌ d t) = lower_code (code c) == code d && lower_eq s t

abbrev pub digit : ℕ → String
digit zero = "0"
digit (suc zero) = "1"
digit (suc (suc zero)) = "2"
digit (suc (suc (suc zero))) = "3"
digit (suc (suc (suc (suc zero)))) = "4"
digit (suc (suc (suc (suc (suc zero))))) = "5"
digit (suc (suc (suc (suc (suc (suc zero)))))) = "6"
digit (suc (suc (suc (suc (suc (suc (suc zero))))))) = "7"
digit (suc (suc (suc (suc (suc (suc (suc (suc zero)))))))) = "8"
digit (suc (suc (suc (suc (suc (suc (suc (suc (suc n))))))))) = "9"

-- The digits of a number; the fuel is more than their count.
unfoldable pub decimal : ℕ → ℕ → String
decimal zero n = ""
decimal (suc fuel) n =
    let more = join_text (decimal fuel (n / 10)) (digit (n % 10)) in
    if ltb n 10 then digit n else more

-- `str(n)`
unfoldable pub str_nat : ℕ → String
unfolding decimal
str_nat n = decimal (suc n) n

unfoldable pub str_int : ℤ → String
unfolding str_nat
str_int (pos n) = str_nat n
str_int (negsuc n) = join_text "-" (str_nat (suc n))

is_digit : ℕ → Bool
is_digit n = leb 48 n && leb n 57

-- Digits, with single underscores between them; `after_digit` is false at the start and after an
-- underscore.
unfoldable pub read_digits : ℕ → Bool → String → Option ℕ
unfolding is_digit
read_digits acc after_digit String.[] = if after_digit then some acc else none
read_digits acc after_digit (String.◌∷◌ c s) =
    let next = read_digits (acc * 10 + (code c - 48)) true s in
    let skip = read_digits acc false s in
    if is_digit (code c) then next else if code c == 95 && after_digit then skip else none

negate : ℕ → ℤ
negate zero = pos zero
negate (suc n) = negsuc n

unfoldable pub read_signed : String → Option ℤ
unfolding read_digits negate
read_signed String.[] = none
read_signed (String.◌∷◌ c s) =
    if code c == 45
    then Option.map negate (read_digits 0 false s)
    else if code c == 43
    then Option.map pos (read_digits 0 false s)
    else Option.map pos (read_digits 0 false (String.◌∷◌ c s))

-- `int(s)`; `none` is the `ValueError`.
unfoldable pub parse_int : String → Option ℤ
unfolding read_signed strip lstrip rstrip is_space
parse_int s = read_signed (strip s)

str_sample : str_int (negsuc 1204) ≡ "-1205"
unfolding str_int
str_sample = refl

parse_sample : parse_int " -1_205 " ≡ some (negsuc 1204)
unfolding parse_int
parse_sample = refl
