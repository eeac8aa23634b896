-- ===== src/Prelude/Clock.antt =====
-- time.Time and time.Duration: nanoseconds, as integers. An instant counts from Go's zero time, the
-- first of January of year 1, so that `IsZero` is `t == 0` and `Truncate` is a remainder.
use mathlib.Core.Bool.{Bool}
use Prim.Native.Nat.{ℕ, ◌*◌, ◌/◌}
use vpp_lab.Prelude.Tests.{if◌then◌else◌}
use vpp_lab.Prelude.Float.{Float}
use vpp_lab.Prelude.Int.{ℤ, pos, negsuc, ◌+ℤ◌, ◌-ℤ◌, ◌*ℤ◌, ltb_ℤ, eq_ℤ, mod_ℤ, quot, int64}

abbrev pub Time : Type 0
Time = ℤ

abbrev pub Duration : Type 0
Duration = ℤ

abbrev pub zero_time : Time
zero_time = pos 0

abbrev pub second : ℕ
second = 1000000000

abbrev pub minute : ℕ
minute = 60000000000

abbrev pub hour : ℕ
hour = 3600000000000

abbrev pub day : ℕ
day = 86400000000000

-- The seconds from the zero time to the start of 1970.
abbrev pub unix_epoch : ℕ
unix_epoch = 62135596800

abbrev pub is_zero : Time → Bool
is_zero t = eq_ℤ t zero_time

abbrev pub after : Time → Time → Bool
after t u = ltb_ℤ u t

abbrev pub before : Time → Time → Bool
before t u = ltb_ℤ t u

-- time.Unix(sec, 0)
unfoldable pub unix : ℤ → Time
unfolding ◌+ℤ◌ ◌*ℤ◌
unix sec = (sec +ℤ pos unix_epoch) *ℤ pos second

-- t.Unix(), the whole seconds since 1970 and never rounded up, and t.UnixNano().
unfoldable pub unix_seconds : Time → ℤ
unfolding ◌-ℤ◌ quot mod_ℤ
unix_seconds t =
    let since = t -ℤ pos (unix_epoch * second) in
    quot (since -ℤ pos (mod_ℤ since second)) (pos second)

unfoldable pub unix_nano : Time → ℤ
unfolding ◌-ℤ◌ int64
unix_nano t = int64 (t -ℤ pos (unix_epoch * second))

-- t.Sub(u), which stops at the largest and the least int64.
unfoldable pub sub_time : Time → Time → Duration
unfolding ◌-ℤ◌
sub_time t u =
    let d = t -ℤ u in
    if ltb_ℤ (pos 9223372036854775807) d
    then pos 9223372036854775807
    else if ltb_ℤ d (negsuc 9223372036854775807)
    then negsuc 9223372036854775807
    else d

-- t.Truncate(d)
unfoldable pub truncate : Time → ℕ → Time
unfolding ◌-ℤ◌ mod_ℤ
truncate t d = t -ℤ pos (mod_ℤ t d)

-- t.Hour() and t.Minute(), where local time is `zone` ahead of UTC.
unfoldable pub hour_of : Duration → Time → ℕ
unfolding ◌+ℤ◌ mod_ℤ
hour_of zone t = mod_ℤ (t +ℤ zone) day / hour

unfoldable pub minute_of : Duration → Time → ℕ
unfolding ◌+ℤ◌ mod_ℤ
minute_of zone t = mod_ℤ (t +ℤ zone) hour / minute

-- d.Seconds(): the whole seconds and the rest, added as float64.
unfoldable pub seconds : {R : Type 0} ⦃F : Float R⦄ → Duration → R
unfolding ◌-ℤ◌ ◌*ℤ◌ quot
seconds ⦃F⦄ d =
    let sec = quot d (pos second) in
    F.add (F.of_int sec) (F.div (F.of_int (d -ℤ sec *ℤ pos second)) (F.decimal 1000000000 0))
