-- ===== src/Prelude/Time.antt =====
-- Go's package time: a time is a number of nanoseconds, a duration an `int64`, which wraps round.
use Prim.Native.Nat.{ℕ, ◌-◌, ◌*◌, ◌^◌, ◌%◌}
use lenz.Prelude.Tests.{ltb, if◌then◌else◌}
use lenz.Prelude.Int.{ℤ, pos, sub_ℕ}

abbrev pub second : ℕ
second = 1000000000

abbrev pub minute : ℕ
minute = 60000000000

-- The `int64` of 64 bits.
abbrev pub signed : ℕ → ℤ
signed n = if ltb n (2 ^ 63) then pos n else sub_ℕ n (2 ^ 64)

-- `time.Duration(n) * unit`
unfoldable pub duration : ℕ → ℕ → ℤ
duration n unit = signed ((n * unit) % (2 ^ 64))

-- `-time.Duration(n) * unit`
unfoldable pub minus_duration : ℕ → ℕ → ℤ
minus_duration n unit = signed ((2 ^ 64 - (n * unit) % (2 ^ 64)) % (2 ^ 64))
