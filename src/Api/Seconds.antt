-- ===== src/Api/Seconds.antt =====
-- `seconds` of internal/api/handlers.go: from a JSON number of seconds to a time.Duration, an int64
-- of nanoseconds. `int` has 64 bits.
use queuemaxxing.Base.{
  ℕ, ◌-◌, ◌*◌, ◌%◌, ◌^◌, ◌≤◌, ◌<◌, ◌≡◌, Option, none, some, ℤ, pos, negsuc, ltb_ℤ, ltb,
  if◌then◌else◌, Result, ok, err, arith,
}

abbrev pub second : ℕ
second = 10 ^ 9

abbrev pub default_visibility : ℕ
default_visibility = 30 * second

abbrev pub max_visibility : ℕ
max_visibility = 12 * 3600 * second

abbrev pub max_wait : ℕ
max_wait = 60 * second

abbrev pub max_delay : ℕ
max_delay = 7 * 24 * 3600 * second

-- the int64 with the low 64 bits of `n`
unfoldable pub to_int64 : ℕ → ℤ
to_int64 n = let r = n % 2 ^ 64 in if ltb r (2 ^ 63) then pos r else negsuc (2 ^ 64 - r - 1)

pub data SecondsError : Type 0 where
  negative too_long : SecondsError

-- `none` is an absent field
unfoldable pub seconds : Option ℤ → ℕ → ℕ → Result SecondsError ℤ
seconds none def max = ok (pos def)
seconds (some (negsuc _)) def max = err negative
seconds (some (pos v)) def max =
    let d = to_int64 (v * second) in if ltb_ℤ (pos max) d then err too_long else ok d

to_int64-small : (n : ℕ) → n < 2 ^ 63 → to_int64 n ≡ pos n
unfolding to_int64
to_int64-small n h = ground arith

-- Where the nanoseconds fit in an int64, a number of seconds is accepted exactly if it is within the
-- limit, and then as that many nanoseconds.
pub seconds_exact :
    (v def max : ℕ)
    → v * second < 2 ^ 63
    → seconds (some (pos v)) def max
      ≡ (if ltb max (v * second) then err too_long else ok (pos (v * second)))
unfolding seconds
seconds_exact v def max fits = rw (to_int64-small (v * second) fits, seconds) (ground arith)

to_int64-wraps : (n r : ℕ) → n % 2 ^ 64 ≡ r → r < 2 ^ 63 → to_int64 n ≡ pos r
unfolding to_int64
to_int64-wraps n r e h = ground arith

-- The multiplication wraps: a number of seconds beyond the limit is accepted, as another duration,
-- whenever the low 64 bits of its nanoseconds are within the limit.
pub seconds_wraps :
    (v def max r : ℕ)
    → max < 2 ^ 63
    → max < v * second
    → (v * second) % 2 ^ 64 ≡ r
    → r ≤ max
    → seconds (some (pos v)) def max ≡ ok (pos r)
unfolding seconds
seconds_wraps v def max r bounded beyond wrapped within =
    rw (to_int64-wraps (v * second) r wrapped (omega arith), seconds) (ground arith)
