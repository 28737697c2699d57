-- ===== src/Proxy/Text.antt =====
-- What proxy.c uses of the C library on texts, which are lists of bytes.
use os2_labs.Common.{
  ℕ, ◌+◌, ◌-◌, ◌*◌, ◌^◌, Bool, true, false, ◌&&◌, ◌||◌, Option, none, some, List, [], ◌∷◌, ◌==◌,
  leb, ltb, if◌then◌else◌, ℤ, pos, negsuc, suc,
}

-- The text up to its first zero byte.
unfoldable pub c_str : List ℕ → List ℕ
c_str [] = []
c_str (c ∷ cs) = if c == 0 then [] else c ∷ c_str cs

unfoldable pub tolower : ℕ → ℕ
tolower c = if leb 65 c && leb c 90 then c + 32 else c

-- `strncasecmp(a, b, n) == 0` for two texts of `n` bytes, none of them zero.
unfoldable pub same_nocase : List ℕ → List ℕ → Bool
unfolding tolower
same_nocase [] [] = true
same_nocase [] (b ∷ bs) = false
same_nocase (a ∷ cs) [] = false
same_nocase (a ∷ cs) (b ∷ bs) = (tolower a == tolower b) && same_nocase cs bs

-- `strncmp(a, b, n) == 0` for a text `b` of `n` bytes, none of them zero.
unfoldable pub starts_with : List ℕ → List ℕ → Bool
starts_with cs [] = true
starts_with [] (b ∷ bs) = false
starts_with (a ∷ cs) (b ∷ bs) = (a == b) && starts_with cs bs

-- Whether a text starts with "\r\n\r\n".
unfoldable pub at_end : List ℕ → Bool
unfolding starts_with
at_end cs = starts_with cs (13 ∷ 10 ∷ 13 ∷ 10 ∷ [])

-- `strstr(buffer, "\r\n\r\n")`, with the four bytes that the caller adds to it.
unfoldable pub header_end : List ℕ → Option ℕ
unfolding at_end
header_end [] = none
header_end (c ∷ cs) =
    let rest = header_end cs in
    if c == 0
    then none
    else if at_end (c ∷ cs)
    then some 4
    else elim rest [ none ↦ none | some n ↦ some (suc n) ]

unfoldable pub is_space : ℕ → Bool
is_space c = (c == 32) || (leb 9 c && leb c 13)

unfoldable pub is_digit : ℕ → Bool
is_digit c = leb 48 c && leb c 57

unfoldable pub skip_space : List ℕ → List ℕ
unfolding is_space
skip_space [] = []
skip_space (c ∷ cs) = if is_space c then skip_space cs else c ∷ cs

-- The number that the digits spell, from `acc` on, and the text behind them.
unfoldable pub digits : ℕ → List ℕ → ℕ × List ℕ
unfolding is_digit
digits acc [] = (acc, [])
digits acc (c ∷ cs) =
    let rest = digits (acc * 10 + (c - 48)) cs in if is_digit c then rest else (acc, c ∷ cs)

abbrev pub llong_max : ℕ
llong_max = 2 ^ 63 - 1

-- The result of `strtoll`: its value, where `endptr` points, and whether `errno` becomes ERANGE.
pub record Parsed : Type 0 where
  pub value : ℤ
  pub endptr : List ℕ
  pub erange : Bool

unfoldable pub signed : (negative : Bool) → ℕ → List ℕ → Parsed
signed true n rest =
    if ltb (llong_max + 1) n
    then record { value = negsuc llong_max; endptr = rest; erange = true }
    else record { value = if n == 0 then pos 0 else negsuc (n - 1); endptr = rest; erange = false }
signed false n rest =
    if ltb llong_max n
    then record { value = pos llong_max; endptr = rest; erange = true }
    else record { value = pos n; endptr = rest; erange = false }

-- The digits behind the sign; where there are none, nothing is converted.
unfoldable pub number : (negative : Bool) → (text : List ℕ) → List ℕ → Parsed
unfolding digits is_digit signed
number negative text [] = record { value = pos 0; endptr = text; erange = false }
number negative text (c ∷ cs) =
    if is_digit c
    then (let (n, rest) = digits 0 (c ∷ cs) in signed negative n rest)
    else record { value = pos 0; endptr = text; erange = false }

abbrev behind_sign : (text : List ℕ) → List ℕ → Parsed
behind_sign text [] = number false text []
behind_sign text (c ∷ cs) =
    if c == 45
    then number true text cs
    else if c == 43
    then number false text cs
    else number false text (c ∷ cs)

-- With base 10.
unfoldable pub strtoll : List ℕ → Parsed
unfolding skip_space number
strtoll text = behind_sign text (skip_space text)
