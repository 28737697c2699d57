-- ===== src/Proxy/Headers/Decimal.antt =====
-- `get_content_len` against the number that the digits of the header stand for.
use native.Mathlib.Nat.{pow-succ'}
use os2_labs.Common.{
  ℕ, ◌+◌, ◌-◌, ◌*◌, ◌^◌, ◌≤◌, ◌<◌, ◌≡◌, ap, ◌∙◌, ◌⊎◌, inl, inr, true, false, some, List, [], ◌∷◌,
  ◌++◌, arith, ◌==◌, Bool-cases, length, All, pos, negsuc, ltb,
}
use os2_labs.Proxy.Text.{digits, is_digit, is_space, signed, strtoll, llong_max}
use os2_labs.Proxy.Headers.{Header, find_header, content_length, get_content_len}

-- The number that a text of digits stands for: each digit by its place.
abbrev pub place_value : List ℕ → ℕ
place_value [] = 0
place_value (c ∷ cs) = (c - 48) * 10 ^ length cs + place_value cs

abbrev pub Digits : List ℕ → Type 0
Digits cs = All (λ (c : ℕ). is_digit c ≡ true) cs

shift : (acc d k : ℕ) → (acc * 10 + d) * k ≡ acc * (10 * k) + d * k
shift acc d k = grind arith

digits-place_value :
    (cs rest : List ℕ) (acc : ℕ)
    → Digits cs
    → digits acc (cs ++ 13 ∷ rest) ≡ (acc * 10 ^ length cs + place_value cs, 13 ∷ rest)
unfolding digits
digits-place_value [] rest acc d = ap (λ (n : ℕ). (n, 13 ∷ rest)) (omega arith)
digits-place_value (c ∷ cs) rest acc d =
    rw (d.0, digits)
      (digits-place_value cs rest (acc * 10 + (c - 48)) d.1
        ∙ ap (λ (n : ℕ). (n, 13 ∷ rest))
            (omega (
              arith,
              shift acc (c - 48) (10 ^ length cs),
              ap (λ (n : ℕ). acc * n) (pow-succ' 10 (length cs)),
            )))

-- A digit is neither a space nor a sign.
digit-no_space :
    (c : ℕ) → is_digit c ≡ true → (is_space c ≡ false) × ((c == 45) ≡ false) × ((c == 43) ≡ false)
unfolding is_digit is_space
digit-no_space c h = ground arith

-- A text that starts with a digit has neither space nor sign before its number.
strtoll-Digits :
    (c : ℕ) (cs rest : List ℕ)
    → Digits (c ∷ cs)
    → strtoll (c ∷ (cs ++ 13 ∷ rest)) ≡ signed false (place_value (c ∷ cs)) (13 ∷ rest)
unfolding strtoll
strtoll-Digits c cs rest d =
    let (no_space, no_minus, no_plus) = digit-no_space c d.0 in
    rw (no_space, no_minus, no_plus, d.0)
      (ap (λ (r : ℕ × List ℕ). signed false r.0 r.1)
        (digits-place_value cs rest (0 * 10 + (c - 48)) d.1
          ∙ ap (λ (n : ℕ). (n, 13 ∷ rest)) (omega arith)))

-- Where `errno` is not set before, and the value of the header is a text of digits with a carriage return
-- behind it, the content length is the number that they stand for, if that fits in a `long long`; else
-- it is -1.
pub get_content_len-place_value :
    (hs : List Header) (h : Header) (c : ℕ) (cs rest : List ℕ)
    → find_header hs content_length ≡ some h
    → h.value ≡ c ∷ cs
    → h.behind ≡ 13 ∷ rest
    → Digits (c ∷ cs)
    → ((place_value (c ∷ cs) ≤ llong_max) × (get_content_len false hs ≡ pos (place_value (c ∷ cs))))
      ⊎ ((llong_max < place_value (c ∷ cs)) × (get_content_len false hs ≡ negsuc 0))
unfolding get_content_len
get_content_len-place_value hs h c cs rest found value behind d =
    elim (Bool-cases (ltb llong_max (place_value (c ∷ cs)))) [
      | inl over ↦ inr (
        ground arith,
        rw (found, get_content_len)
            (rw (value, behind) (rw (strtoll-Digits c cs rest d) (rw over))),
      )
      | inr fits ↦ inl (
        ground arith,
        rw (found, get_content_len)
            (rw (value, behind) (rw (strtoll-Digits c cs rest d) (rw fits))),
      )
    ]
