-- ===== src/Prelude/Text.antt =====
-- What the source uses of `strings` and `unicode`.
use Prim.Native.Nat.{ℕ, zero, suc, ◌+◌, ◌/◌, ◌%◌}
use Prim.Native.Char.{code}
use Prim.Native.String.{String, ◌++◌ as ◌<>◌}
use text.Mathlib.Text.{find?}
use mathlib.Core.Option.{none, some}
use mathlib.Core.Bool.{Bool, true, false, not, ◌&&◌, ◌||◌}
use mathlib.Core.List.{List, [], ◌∷◌}
use cloud_ring.Prelude.Tests.{ltb, leb, eqb, if◌then◌else◌}
use cloud_ring.Prelude.Lists.{get_elem?, last?}

-- unicode.IsSpace
abbrev is_space : ℕ → Bool
is_space c =
    (leb 9 c && leb c 13)
    || (eqb c 32)
    || (eqb c 0x85)
    || (eqb c 0xa0)
    || (eqb c 0x1680)
    || (leb 0x2000 c && leb c 0x200a)
    || (eqb c 0x2028)
    || (eqb c 0x2029)
    || (eqb c 0x202f)
    || (eqb c 0x205f)
    || (eqb c 0x3000)

-- strings.TrimSpace(s) == ""
unfoldable pub is_blank : String → Bool
is_blank String.[] = true
is_blank (String.◌∷◌ c s) = is_space (code c) && is_blank s

-- len(s), the bytes of the UTF-8 text
unfoldable pub byte_length : String → ℕ
byte_length String.[] = 0
byte_length (String.◌∷◌ c s) =
    (if ltb (code c) 0x80
      then 1
      else if ltb (code c) 0x800
      then 2
      else if ltb (code c) 0x10000
      then 3
      else 4)
    + byte_length s

-- The code points of a text.
abbrev pub codes : String → List ℕ
codes String.[] = []
codes (String.◌∷◌ c s) = code c ∷ codes s

-- The first code points of a text: s[:n], where the text is ASCII.
unfoldable pub text_take : ℕ → String → String
text_take zero s = ""
text_take (suc n) String.[] = ""
text_take (suc n) (String.◌∷◌ c s) = String.◌∷◌ c (text_take n s)

-- The order of texts, by code points, which for UTF-8 is that of their bytes.
unfoldable pub codes_lt : List ℕ → List ℕ → Bool
codes_lt [] [] = false
codes_lt [] (d ∷ ds) = true
codes_lt (c ∷ cs) [] = false
codes_lt (c ∷ cs) (d ∷ ds) = ltb c d || (eqb c d && codes_lt cs ds)

-- s < t
unfoldable pub text_lt : String → String → Bool
text_lt s t = codes_lt (codes s) (codes t)

-- The decimal digits of a number, `%d`.
abbrev pub digits : List String
digits = "0" ∷ "1" ∷ "2" ∷ "3" ∷ "4" ∷ "5" ∷ "6" ∷ "7" ∷ "8" ∷ "9" ∷ []

unfoldable pub digit_text : ℕ → String
digit_text n = elim (get_elem? digits n) [ none ↦ "" | some s ↦ s ]

-- Each round takes a digit, so that a number is fuel enough for itself.
unfoldable pub decimal_on : ℕ → ℕ → String
decimal_on zero n = digit_text n
decimal_on (suc fuel) n = elim (ltb n 10) [
  | true ↦ digit_text n
  | false ↦ decimal_on fuel (n / 10) <> digit_text (n % 10)
]

unfoldable pub decimal : ℕ → String
decimal n = decimal_on n n

-- strings.TrimSpace(s) == s
unfoldable pub is_trimmed : String → Bool
is_trimmed s =
    not (is_space (elim (codes s) [ [] ↦ 0 | c ∷ cs ↦ c ]))
    && not (is_space (elim (last? (codes s)) [ none ↦ 0 | some c ↦ c ]))

-- strings.Contains(s, t)
abbrev pub contains_text : String → String → Bool
contains_text s t = elim (find? s t) [ none ↦ false | some i ↦ true ]
