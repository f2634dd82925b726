-- ===== src/Clock.antt =====
-- Go's time.Time and time.Duration. A Time counts nanoseconds from Go's zero Time, January 1 of
-- year 1, so the zero value of the source is 0; a Duration is a count of nanoseconds. The times of
-- the program lie between its start and some year, so nothing wraps.
use enterprise_middleware_go.Prelude.{ℕ, suc, ◌+◌, ◌-◌, ◌*◌, ◌/◌}
use enterprise_middleware_go.Prelude.Int.{ℤ, pos, negsuc, sub_ℕ}

abbrev pub Time : Type 0
Time = ℕ

abbrev pub Duration : Type 0
Duration = ℕ

abbrev pub millisecond : Duration
millisecond = 1_000_000

abbrev pub second : Duration
second = 1_000_000_000

abbrev pub minute : Duration
minute = 60 * second

abbrev pub hour : Duration
hour = 60 * minute

-- The seconds from year 1 to the Unix epoch.
abbrev pub unix_epoch : ℕ
unix_epoch = 62_135_596_800

-- t.Unix()
unfoldable pub to_unix : Time → ℤ
to_unix t = sub_ℕ (t / second) unix_epoch

-- time.Unix(s, 0); a time before year 1 reads as the zero Time.
unfoldable pub from_unix : ℤ → Time
from_unix (pos s) = (unix_epoch + s) * second
from_unix (negsuc s) = (unix_epoch - suc s) * second
