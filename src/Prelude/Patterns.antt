-- ===== src/Prelude/Patterns.antt =====
-- The shapes of the regular expressions that the source uses, on the code points of a text.
use Prim.Native.Nat.{ℕ}
use Prim.Native.String.{String}
use mathlib.Core.Bool.{Bool, true, false, ◌&&◌, ◌||◌}
use mathlib.Core.Option.{none, some}
use mathlib.Core.List.{List, [], ◌∷◌}
use cloud_ring.Prelude.Tests.{leb, eqb}
use cloud_ring.Prelude.Lists.{length, last?}
use cloud_ring.Prelude.Text.{codes}

abbrev pub is_lower : ℕ → Bool
is_lower c = leb b'a' c && leb c b'z'

abbrev pub is_lower_alnum : ℕ → Bool
is_lower_alnum c = is_lower c || (leb b'0' c && leb c b'9')

abbrev pub is_alpha : ℕ → Bool
is_alpha c = is_lower c || (leb b'A' c && leb c b'Z')

abbrev pub is_hex : ℕ → Bool
is_hex c = (leb b'0' c && leb c b'9') || (leb b'a' c && leb c b'f')

unfoldable pub all_codes : (ℕ → Bool) → List ℕ → Bool
all_codes p [] = true
all_codes p (c ∷ cs) = p c && all_codes p cs

-- ^[first][rest]{0,n}$
unfoldable pub matches : (ℕ → Bool) → (ℕ → Bool) → ℕ → List ℕ → Bool
matches first rest n [] = false
matches first rest n (c ∷ cs) = first c && all_codes rest cs && leb (length cs) n

-- ^[0-9a-f]{n}$
unfoldable pub hex_text : ℕ → String → Bool
hex_text n s = all_codes is_hex (codes s) && eqb (length (codes s)) n

abbrev pub last_code : List ℕ → ℕ
last_code cs = elim (last? cs) [ none ↦ 0 | some c ↦ c ]

-- strings.Contains(s, "..")
unfoldable pub dot_dot : List ℕ → Bool
dot_dot [] = false
dot_dot (c ∷ []) = false
dot_dot (c ∷ d ∷ cs) = (eqb c b'.' && eqb d b'.') || dot_dot (d ∷ cs)
