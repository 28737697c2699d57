-- ===== src/Proxy/Headers.antt =====
-- caching_http_proxy/proxy/proxy.c: `findHeader` and `get_content_len`.
pub mod Decimal
use os2_labs.Common.{
  ℕ, Bool, false, ◌&&◌, ◌||◌, Option, none, some, List, [], ◌∷◌, ◌++◌, ◌==◌, if◌then◌else◌, length,
  ℤ, pos, negsuc, is_neg,
}
use os2_labs.Proxy.Text.{same_nocase, strtoll}

-- A header as the parser finds it in the buffer; `behind` is what follows its value there.
pub record Header : Type 0 where
  pub name : List ℕ
  pub value : List ℕ
  pub behind : List ℕ

unfoldable pub find_header : List Header → List ℕ → Option Header
unfolding same_nocase
find_header [] name = none
find_header (h ∷ hs) name =
    if (length h.name == length name) && same_nocase h.name name
    then some h
    else find_header hs name

-- "Content-Length"
abbrev pub content_length : List ℕ
content_length = 67 ∷ 111 ∷ 110 ∷ 116 ∷ 101 ∷ 110 ∷ 116 ∷ 45 ∷ 76 ∷ 101 ∷ 110 ∷ 103 ∷ 116 ∷ 104 ∷ []

abbrev at_cr : List ℕ → Bool
at_cr [] = false
at_cr (c ∷ cs) = c == 13

-- `errno_bad`: `errno` is ERANGE or EINVAL before the call, which nothing resets.
unfoldable pub get_content_len : (errno_bad : Bool) → List Header → ℤ
unfolding find_header strtoll
get_content_len errno_bad hs = elim (find_header hs content_length) [
  | none ↦ negsuc 0
  | some h ↦
      let ret = strtoll (h.value ++ h.behind) in
      if at_cr ret.endptr
      then if errno_bad || ret.erange
        then negsuc 0
        else if is_neg ret.value
        then pos 0
        else ret.value
      else negsuc 0
]
