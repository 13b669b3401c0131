-- ===== src/Prelude/Order.antt =====
-- The codes of a joined text, and the order of texts, which is strict and total.
use Prim.Native.Nat.{ℕ}
use Prim.Native.Char.{code}
use Prim.Native.String.{String, ◌++◌ as ◌<>◌}
use mathlib.Core.Path.{◌≡◌, refl, ap, ◌∙◌}
use mathlib.Core.Logic.{◌≢◌, inl, inr}
use mathlib.Core.Bool.{true, false, ◌&&◌, ◌||◌}
use mathlib.Core.List.{List, [], ◌∷◌, ◌++◌}
use native.Mathlib.Omega.{arith}
use text.Mathlib.TextEquality.{Char-path}
use text.Mathlib.TextLemmas.{nil-append, cons-append}
use cloud_ring.Prelude.Tests.{eqb, Bool-cases}
use cloud_ring.Prelude.Text.{codes, codes_lt, text_lt}

pub codes-append : (s t : String) → codes (s <> t) ≡ codes s ++ codes t
codes-append String.[] t = ap codes (nil-append t)
codes-append (String.◌∷◌ c s) t =
    ap codes (cons-append c s t) ∙ ap (◌∷◌ (code c)) (codes-append s t)

codes_lt_trans :
    (xs ys zs : List ℕ) → codes_lt xs ys ≡ true → codes_lt ys zs ≡ true → codes_lt xs zs ≡ true
unfolding codes_lt
codes_lt_trans [] [] zs h k = ground arith
codes_lt_trans [] (y ∷ ys) [] h k = ground arith
codes_lt_trans [] (y ∷ ys) (z ∷ zs) h k = refl
codes_lt_trans (x ∷ xs) [] zs h k = ground arith
codes_lt_trans (x ∷ xs) (y ∷ ys) [] h k = ground arith
codes_lt_trans (x ∷ xs) (y ∷ ys) (z ∷ zs) h k =
    elim (Bool-cases (codes_lt xs ys && codes_lt ys zs)) [
      | inl e ↦ let rest = codes_lt_trans xs ys zs (ground arith) (ground arith) in ground arith
      | inr e ↦ ground arith
    ]

codes_lt-asym : (xs ys : List ℕ) → codes_lt xs ys ≡ true → codes_lt ys xs ≡ false
unfolding codes_lt
codes_lt-asym [] [] h = refl
codes_lt-asym [] (y ∷ ys) h = refl
codes_lt-asym (x ∷ xs) [] h = ground arith
codes_lt-asym (x ∷ xs) (y ∷ ys) h = elim (Bool-cases (codes_lt xs ys)) [
  | inl e ↦ let rest = codes_lt-asym xs ys e in ground arith
  | inr e ↦ ground arith
]

pub text_lt_trans : (s t u : String) → text_lt s t ≡ true → text_lt t u ≡ true → text_lt s u ≡ true
unfolding text_lt
text_lt_trans s t u h k = codes_lt_trans (codes s) (codes t) (codes u) h k

pub text_lt-asym : (s t : String) → text_lt s t ≡ true → text_lt t s ≡ false
unfolding text_lt
text_lt-asym s t h = codes_lt-asym (codes s) (codes t) h

pub text_lt_total : (s t : String) → s ≢ t → (text_lt s t || text_lt t s) ≡ true
unfolding text_lt codes_lt
text_lt_total String.[] String.[] h = absurd (h refl)
text_lt_total String.[] (String.◌∷◌ d t) h = refl
text_lt_total (String.◌∷◌ c s) String.[] h = refl
text_lt_total (String.◌∷◌ c s) (String.◌∷◌ d t) h = elim (Bool-cases (eqb (code c) (code d))) [
  | inl e ↦
      let first : c ≡ d = Char-path c d (ground arith) in
      let rest = text_lt_total s t (λ k. h (rw (first, k) refl)) in ground arith
  | inr e ↦ ground arith
]
