-- ===== src/Go/Time.antt =====
-- Go's `time.Time` and `time.Duration`. An instant is the number of nanoseconds since the zero
-- Time (January 1, year 1, UTC), so the zero Time is 0; a duration is an int64 of nanoseconds.
-- The clock is taken to stand at least 2^63 nanoseconds after the zero Time, as it does since the
-- year 293, so that `add` of no duration reaches below the zero Time.
use payment_gateway_router.Common.{
  ℕ, ◌+◌, ◌-◌, ◌*◌, ◌/◌, ◌^◌, ◌<◌, ◌≡◌, refl, Bool, arith, ltb, ◌==◌,
}
use payment_gateway_router.Go.Int.{ℤ, pos, pos_part, neg_part, sub_ℕ, ◌*ℤ◌, pos-*ℤ}

abbrev pub Time : Type 0
Time = ℕ

abbrev pub Duration : Type 0
Duration = ℤ

abbrev pub zero_time : Time
zero_time = 0

-- `t.Before(u)`, `t.After(u)`, `t.IsZero()`
abbrev pub before : Time → Time → Bool
before t u = ltb t u

abbrev pub after : Time → Time → Bool
after t u = ltb u t

abbrev pub is_zero : Time → Bool
is_zero t = t == 0

-- `t.Add(d)` and `t.Add(-d)`
unfoldable pub add : Time → Duration → Time
add t d = t + pos_part d - neg_part d

unfoldable pub add_neg : Time → Duration → Time
add_neg t d = t + neg_part d - pos_part d

-- `time.Duration(n) * time.Second` and `time.Duration(n) * time.Millisecond`
unfoldable pub seconds : ℤ → Duration
unfolding ◌*ℤ◌
seconds n = n *ℤ pos 1000000000

unfoldable pub milliseconds : ℤ → Duration
unfolding ◌*ℤ◌
milliseconds n = n *ℤ pos 1000000

-- `time.Minute`
abbrev pub minute : Duration
minute = pos 60000000000

-- `t.UnixMilli()`: the Unix epoch is 62135596800 seconds after the zero Time.
unfoldable pub unix_milli : Time → ℤ
unix_milli t = sub_ℕ (t / 1000000) 62135596800000

pub seconds_fits : (n : ℕ) → n * 1000000000 < 2 ^ 63 → seconds (pos n) ≡ pos (n * 1000000000)
unfolding seconds
seconds_fits n h = pos-*ℤ n 1000000000 h

pub add-seconds : (t n : ℕ) → n * 1000000000 < 2 ^ 63 → add t (seconds (pos n)) ≡ t + n * 1000000000
unfolding add
add-seconds t n h = ground (arith, seconds_fits n h)

epoch_milli : unix_milli 62135596800123456789 ≡ pos 123
unfolding unix_milli
epoch_milli = refl
