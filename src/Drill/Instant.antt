-- ===== src/Drill/Instant.antt =====
-- Canonical times of pkg/backup/drill: RFC 3339 with nanoseconds, in UTC. An instant is a count of
-- nanoseconds from the start of the year 0 of the proleptic Gregorian calendar.
use cloud_ring.Prelude.{
  ℕ, zero, suc, ◌+◌, ◌-◌, ◌*◌, ◌/◌, ◌%◌, String, Bool, not, ◌&&◌, ◌||◌, Option, none, some, ◌<>◌,
  List, [], ◌∷◌, if◌then◌else◌, leb, ltb, eqb,
}
use cloud_ring.Prelude.Lists.{get_elem?}
use cloud_ring.Prelude.Text.{codes}

abbrev pub Instant : Type 0
Instant = ℕ

abbrev is_digit : ℕ → Bool
is_digit c = leb b'0' c && leb c b'9'

abbrev leap : ℕ → Bool
leap y = eqb (y % 4) 0 && (not (eqb (y % 100) 0) || eqb (y % 400) 0)

-- The days of the years before `y`, and of the months before `m`.
abbrev days_before_year : ℕ → ℕ
days_before_year y = 365 * y + (y + 3) / 4 - (y + 99) / 100 + (y + 399) / 400

abbrev days_before_month : ℕ → ℕ → ℕ
days_before_month y m =
    (if leb m 2 then 31 * (m - 1) else 30 * (m - 1) + ((m + m / 8) / 2) - 2)
    + (if ltb 2 m && leap y then 1 else 0)

abbrev month_length : ℕ → ℕ → ℕ
month_length y m =
    if eqb m 2
    then if leap y then 29 else 28
    else if eqb m 4 || eqb m 6 || eqb m 9 || eqb m 11
    then 30
    else 31

-- The digits after the point, up to the final Z: at most nine, and the last is not 0.
fraction : ℕ → ℕ → ℕ → List ℕ → Option ℕ
fraction zero unit n (c ∷ []) = if eqb c b'Z' then some n else none
fraction zero unit n _ = none
fraction (suc k) unit n [] = none
fraction (suc k) unit n (c ∷ []) = none
fraction (suc k) unit n (c ∷ d ∷ cs) =
    let rest = fraction k (unit / 10) (n + (c - b'0') * unit) (d ∷ cs) in
    if not (is_digit c)
    then none
    else if eqb d b'Z'
    then elim cs [ [] ↦ if eqb c b'0' then none else some (n + (c - b'0') * unit) | _ ↦ none ]
    else rest

nanoseconds : List ℕ → Option ℕ
unfolding fraction
nanoseconds [] = none
nanoseconds (c ∷ []) = if eqb c b'Z' then some 0 else none
nanoseconds (c ∷ d ∷ cs) = if eqb c b'.' then fraction 9 100000000 0 (d ∷ cs) else none

abbrev two : ℕ → ℕ → ℕ
two a b = 10 * (a - b'0') + (b - b'0')

instant_at : ℕ → ℕ → ℕ → ℕ → ℕ → ℕ → ℕ → Option Instant
instant_at y m d h n s f =
    if leb 1 m
      && leb m 12
      && leb 1 d
      && leb d (month_length y m)
      && ltb h 24
      && ltb n 60
      && ltb s 60
    then some (
        (((days_before_year y + days_before_month y m + (d - 1)) * 86400) + h * 3600 + n * 60 + s)
          * 1000000000
        + f)
    else none

parse_time : List ℕ → Option Instant
unfolding nanoseconds instant_at
parse_time
      (y0 ∷ y1 ∷ y2 ∷ y3 ∷ c1 ∷ m0 ∷ m1 ∷ c2 ∷ d0 ∷ d1 ∷ c3 ∷ h0 ∷ h1 ∷ c4 ∷ n0 ∷ n1 ∷ c5 ∷ s0 ∷ s1
        ∷ rest) =
    if is_digit y0
      && is_digit y1
      && is_digit y2
      && is_digit y3
      && is_digit m0
      && is_digit m1
      && is_digit d0
      && is_digit d1
      && is_digit h0
      && is_digit h1
      && is_digit n0
      && is_digit n1
      && is_digit s0
      && is_digit s1
      && eqb c1 b'-'
      && eqb c2 b'-'
      && eqb c3 b'T'
      && eqb c4 b':'
      && eqb c5 b':'
    then elim (nanoseconds rest) [
      | none ↦ none
      | some f ↦
          instant_at (100 * two y0 y1 + two y2 y3) (two m0 m1) (two d0 d1) (two h0 h1) (two n0 n1)
            (two s0 s1) f
    ]
    else none
parse_time _ = none

-- canonicalTime: `none` is its error.
unfoldable pub canonical_time : String → Option Instant
unfolding parse_time
canonical_time value = parse_time (codes value)

abbrev digit : ℕ → String
digit d =
    elim (get_elem? {A = String} ("0" ∷ "1" ∷ "2" ∷ "3" ∷ "4" ∷ "5" ∷ "6" ∷ "7" ∷ "8" ∷ "9" ∷ [])
      d) [ none ↦ "" | some s ↦ s ]

-- The last `k` decimal digits of a number.
abbrev padded : ℕ → ℕ → String
padded zero n = ""
padded (suc k) n = padded k (n / 10) <> digit (n % 10)

-- %d: at most twenty digits.
decimal_by : ℕ → ℕ → String
decimal_by zero n = ""
decimal_by (suc k) n =
    let rest = decimal_by k (n / 10) in if ltb n 10 then digit n else rest <> digit (n % 10)

abbrev decimal : ℕ → String
unfolding decimal_by
decimal n = decimal_by 20 n

-- The digits after the point, without the zeros at the end.
trimmed : ℕ → ℕ → String
trimmed zero n = ""
trimmed (suc k) n =
    let rest = trimmed k (n / 10) in
    if eqb (n % 10) 0 then rest else padded k (n / 10) <> digit (n % 10)

-- The year, the month and the day of a count of days, by the cycle of 400 years from 1 March.
abbrev date : ℕ → String
date days =
    let z = days + 146097 - 60 in
    let doe = z % 146097 in
    let yoe = (doe + doe / 36524 - doe / 1460 - doe / 146096) / 365 in
    let doy = doe + yoe / 100 - 365 * yoe - yoe / 4 in
    let mp = (5 * doy + 2) / 153 in
    let m = if ltb mp 10 then mp + 3 else mp - 9 in
    let y = yoe + (z / 146097) * 400 + (if leb m 2 then 1 else 0) - 400 in
    (if ltb y 10000 then padded 4 y else decimal y)
    <> "-"
    <> padded 2 m
    <> "-"
    <> padded 2 (doy + 1 - (153 * mp + 2) / 5)

-- now.UTC().Format(time.RFC3339Nano)
unfoldable pub format_time : Instant → String
unfolding trimmed decimal
format_time t =
    let s = t / 1000000000 in
    let f = t % 1000000000 in
    date (s / 86400)
    <> "T"
    <> padded 2 (s % 86400 / 3600)
    <> ":"
    <> padded 2 (s % 3600 / 60)
    <> ":"
    <> padded 2 (s % 60)
    <> (if eqb f 0 then "" else "." <> trimmed 9 f)
    <> "Z"

-- The seconds of 1970-01-01T00:00:00Z.
abbrev epoch : ℕ
epoch = 62167219200

-- %d of Unix()
unfoldable pub unix_text : Instant → String
unfolding decimal
unix_text t =
    let s = t / 1000000000 in
    if ltb s epoch then "-" <> decimal (epoch - s) else decimal (s - epoch)
