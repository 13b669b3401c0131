-- ===== src/Ports/Identifiers.antt =====
-- pkg/providerports/ports.go: the identifiers that the adapter makes pass validIdentifier.
use text.Mathlib.TextLemmas.{append_assoc}
use cloud_ring.Prelude.{
  ℕ, zero, suc, ◌+◌, ◌≤◌, String, ◌<>◌, List, [], ◌∷◌, ◌++◌, Bool, true, false, ◌&&◌, ◌||◌, ◌≡◌,
  refl, sym, ap, ◌∙◌, subst, arith, eqb,
}
use cloud_ring.Prelude.Lists.{length, length-append, All, contains-All}
use cloud_ring.Prelude.Text.{codes, text_take}
use cloud_ring.Prelude.Order.{codes-append}
use cloud_ring.Prelude.Patterns.{
  all_codes, matches, is_lower_alnum, is_hex, hex_text, last_code, dot_dot,
}
use cloud_ring.Ports.Types.{
  valid_identifier, identifier_codes, valid_digest, valid_backend_family, all_backend_families,
  BackendFamily,
}

-- A code of a made identifier.
abbrev is_plain : ℕ → Bool
is_plain c = is_lower_alnum c || eqb c b'-'

all_codes-append :
    (p : ℕ → Bool) (xs ys : List ℕ) → all_codes p (xs ++ ys) ≡ (all_codes p xs && all_codes p ys)
unfolding all_codes
all_codes-append p [] ys = refl
all_codes-append p (x ∷ xs) ys = let rest = all_codes-append p xs ys in ground arith

all_codes-map :
    (p q : ℕ → Bool)
    → ((c : ℕ) → p c ≡ true → q c ≡ true)
    → (cs : List ℕ) → all_codes p cs ≡ true
    → all_codes q cs ≡ true
unfolding all_codes
all_codes-map p q f [] h = refl
all_codes-map p q f (c ∷ cs) h =
    let one = f c (ground arith) in let rest = all_codes-map p q f cs (ground arith) in ground arith

-- No two dots among codes that are none.
not-dot_dot : (cs : List ℕ) → all_codes is_plain cs ≡ true → dot_dot cs ≡ false
unfolding all_codes dot_dot
not-dot_dot [] h = refl
not-dot_dot (c ∷ []) h = refl
not-dot_dot (c ∷ d ∷ cs) h = let rest = not-dot_dot (d ∷ cs) (ground arith) in ground arith

last_code-all :
    (p : ℕ → Bool) (c : ℕ) (cs : List ℕ)
    → all_codes p (c ∷ cs) ≡ true
    → p (last_code (c ∷ cs)) ≡ true
unfolding all_codes
last_code-all p c [] h = ground arith
last_code-all p c (d ∷ cs) h = last_code-all p d cs (ground arith)

last_code-append :
    (xs : List ℕ) (d : ℕ) (ds : List ℕ) → last_code (xs ++ d ∷ ds) ≡ last_code (d ∷ ds)
last_code-append [] d ds = refl
last_code-append (x ∷ []) d ds = refl
last_code-append (x ∷ y ∷ xs) d ds = last_code-append (y ∷ xs) d ds

-- The head of a text, then hexadecimal digits.
valid_identifier-made :
    (value : String) (c : ℕ) (cs : List ℕ) (d : ℕ) (ds : List ℕ)
    → codes value ≡ (c ∷ cs) ++ (d ∷ ds)
    → is_lower_alnum c ≡ true
    → all_codes is_plain cs ≡ true
    → all_codes is_hex (d ∷ ds) ≡ true
    → 1 ≤ length cs + length ds
    → length cs + length ds ≤ 62
    → valid_identifier value ≡ true
unfolding valid_identifier identifier_codes matches all_codes
valid_identifier-made value c cs d ds e hc hcs hds hlo hhi =
    let digits = all_codes-map is_hex is_plain (λ x h. ground arith) (d ∷ ds) hds in
    let split = all_codes-append is_plain cs (d ∷ ds) in
    let rest : all_codes is_plain (cs ++ d ∷ ds) ≡ true = ground arith in
    let wide =
      all_codes-map is_plain (λ x. is_lower_alnum x || eqb x b'.' || eqb x b'_' || eqb x b'-')
        (λ x h. ground arith) (cs ++ d ∷ ds) rest in
    let dots = not-dot_dot (c ∷ (cs ++ d ∷ ds)) (ground arith) in
    let last = last_code-append (c ∷ cs) d ds in
    let final = last_code-all is_hex d ds hds in
    let alnum : is_lower_alnum (last_code (c ∷ (cs ++ d ∷ ds))) ≡ true =
      subst (λ x. is_lower_alnum x ≡ true) (sym last) (ground arith) in
    let size = length-append cs (d ∷ ds) in
    let own : identifier_codes (c ∷ (cs ++ d ∷ ds)) ≡ true = ground arith in
    ap identifier_codes e ∙ own

codes-text_take :
    (n : ℕ) (s : String)
    → n ≤ length (codes s)
    → all_codes is_hex (codes s) ≡ true
    → (all_codes is_hex (codes (text_take n s)) ≡ true) × (length (codes (text_take n s)) ≡ n)
unfolding text_take all_codes
codes-text_take zero s hn h = (refl, refl)
codes-text_take (suc n) String.[] hn h = ground arith
codes-text_take (suc n) (String.◌∷◌ c s) hn h =
    let (rest, size) = codes-text_take n s (ground arith) (ground arith) in
    (ground arith, ground arith)

all_codes-head :
    (p : ℕ → Bool) (n : ℕ) (cs : List ℕ)
    → length cs ≡ suc n
    → (d : ℕ) × (ds : List ℕ) × (cs ≡ d ∷ ds) × (length ds ≡ n)
all_codes-head p n [] h = ground arith
all_codes-head p n (d ∷ ds) h = (d, ds, refl, ground arith)

-- A head and a number of digits of a digest.
valid_identifier-digits :
    (c : ℕ) (cs : List ℕ) (head digest : String) (n : ℕ)
    → codes head ≡ c ∷ cs
    → is_lower_alnum c ≡ true
    → all_codes is_plain cs ≡ true
    → valid_digest digest ≡ true
    → n ≤ 60
    → 1 ≤ length cs
    → length cs + n ≤ 62
    → valid_identifier (head <> text_take (suc n) digest) ≡ true
unfolding valid_digest hex_text
valid_identifier-digits c cs head digest n eh hc hcs hd hn hlo hhi =
    let (hex, size) = codes-text_take (suc n) digest (ground arith) (ground arith) in
    let (d, ds, e, hs) = all_codes-head is_hex n (codes (text_take (suc n) digest)) size in
    let joined : codes (head <> text_take (suc n) digest) ≡ c ∷ (cs ++ d ∷ ds) =
      codes-append head (text_take (suc n) digest) ∙ rw (eh, e) refl in
    valid_identifier-made (head <> text_take (suc n) digest) c cs d ds joined hc hcs
      (subst (λ l. all_codes is_hex l ≡ true) e hex) (ground arith) (ground arith)

pub operation_id-valid :
    (digest : String)
    → valid_digest digest ≡ true
    → valid_identifier ("op-" <> text_take 24 digest) ≡ true
unfolding all_codes
operation_id-valid digest h =
    valid_identifier-digits 111 (112 ∷ 45 ∷ []) "op-" digest 23 refl refl refl h (ground arith)
      (ground arith) (ground arith)

abbrev IsPlain : String → Type 0
IsPlain s = (all_codes is_plain (codes s) ≡ true) × (length (codes s) ≤ 20)

handle-codes :
    (family : String)
    → codes ("hdl-" <> (family <> "-")) ≡ 104 ∷ 100 ∷ 108 ∷ 45 ∷ (codes family ++ 45 ∷ [])
handle-codes family =
    codes-append "hdl-" (family <> "-")
    ∙ ap (λ cs. 104 ∷ 100 ∷ 108 ∷ 45 ∷ cs) (codes-append family "-")

handle-join :
    (family rest : String)
    → ("hdl-" <> (family <> "-")) <> rest ≡ "hdl-" <> (family <> ("-" <> rest))
handle-join family rest =
    append_assoc "hdl-" (family <> "-") rest ∙ ap (λ t. "hdl-" <> t) (append_assoc family "-" rest)

pub provider_handle-valid :
    (family : BackendFamily) (digest : String)
    → valid_backend_family family ≡ true
    → valid_digest digest ≡ true
    → valid_identifier ("hdl-" <> (family <> ("-" <> text_take 20 digest))) ≡ true
unfolding valid_backend_family all_codes
provider_handle-valid family digest hf h =
    let families : All IsPlain all_backend_families = ground arith in
    let (hp, hs) = contains-All IsPlain all_backend_families family families hf in
    let joined = all_codes-append is_plain (codes family) (45 ∷ []) in
    let size = length-append (codes family) (45 ∷ []) in
    subst (λ s. valid_identifier s ≡ true) (handle-join family (text_take 20 digest))
      (valid_identifier-digits 104 (100 ∷ 108 ∷ 45 ∷ (codes family ++ 45 ∷ []))
        ("hdl-" <> (family <> "-")) digest 19 (handle-codes family) refl (ground arith) h
        (ground arith) (ground arith) (ground arith))
