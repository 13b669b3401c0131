-- ===== src/Prelude/Time.antt =====
-- Instants and durations of Go's `time` package: an instant is a count of nanoseconds from the zero
-- time, which is 0 itself, and a duration is a signed count of nanoseconds.
use Prim.Native.Nat.{ℕ, ◌+◌, ◌-◌}
use mathlib.Core.Bool.{Bool}
use cloud_ring.Prelude.Tests.{ltb, eqb}
use cloud_ring.Prelude.Int.{ℤ, pos, negsuc}

abbrev pub Time : Type 0
Time = ℕ

abbrev pub Duration : Type 0
Duration = ℤ

abbrev pub second : ℕ
second = 1000000000

abbrev pub minute : ℕ
minute = 60000000000

abbrev pub hour : ℕ
hour = 3600000000000

abbrev pub is_zero : Time → Bool
is_zero t = eqb t 0

abbrev pub before : Time → Time → Bool
before a b = ltb a b

abbrev pub after : Time → Time → Bool
after a b = ltb b a

-- t.Add(d); an instant before the zero time is not represented.
abbrev pub add : Time → Duration → Time
add t (pos d) = t + d
add t (negsuc d) = t - (d + 1)
