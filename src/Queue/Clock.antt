-- ===== src/Queue/Clock.antt =====
-- Times of package time, as nanoseconds since the Unix epoch, and the conversions of
-- internal/queue/queue.go between them and the milliseconds of the log.
use queuemaxxing.Base.{ℕ, suc, ◌-◌, ◌*◌, ◌/◌, ◌^◌, ◌≡◌, Bool, ℤ, pos, negsuc, ltb_ℤ, arith}

abbrev pub Time : Type 0
Time = ℤ

abbrev pub millisecond : ℕ
millisecond = 1000000

-- time.Time.Before and After
abbrev pub before : Time → Time → Bool
before s t = ltb_ℤ s t

abbrev pub after : Time → Time → Bool
after s t = ltb_ℤ t s

-- time.Time{}: the first of January of year 1
abbrev pub zero_time : Time
zero_time = negsuc (62135596800 * 10 ^ 9 - 1)

-- UnixMilli rounds towards the past
unfoldable pub to_millis : Time → ℤ
to_millis (pos n) = pos (n / millisecond)
to_millis (negsuc n) = negsuc (n / millisecond)

unfoldable pub from_millis : ℤ → Time
from_millis (pos n) = pos (n * millisecond)
from_millis (negsuc n) = negsuc (suc n * millisecond - 1)

-- A time in milliseconds survives the log: what was read back is written again unchanged.
pub to_millis-from_millis : (ms : ℤ) → to_millis (from_millis ms) ≡ ms
unfolding to_millis from_millis
to_millis-from_millis (pos n) = ground arith
to_millis-from_millis (negsuc n) = ground arith
