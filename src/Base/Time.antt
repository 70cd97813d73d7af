-- ===== src/Base/Time.antt =====
-- common/time_utils.py: UTC normalisation, and the two ways the owners print a time. An instant is
-- the number of microseconds since 1970-01-01 UTC; no stored time is earlier.
use Prim.Native.Nat.{ℕ, ◌+◌, ◌-◌, ◌*◌, ◌/◌, ◌%◌}
use Prim.Native.String.{String, ◌++◌}
use mathlib.Core.Path.{◌≡◌, refl}
use mathlib.Core.Option.{Option, none, some}
use defi_engine.Base.Tests.{ltb, leb, ◌==◌, if◌then◌else◌}
use defi_engine.Base.Text.{pad}

abbrev pub Instant : Type 0
Instant = ℕ

-- A naive datetime is its wall time, which `ensure_utc` reads as UTC; an aware one is the instant
-- that it denotes, whatever its offset.
pub data DateTime : Type 0 where
  naive : Instant → DateTime
  aware : Instant → DateTime

unfoldable pub ensure_utc : Option DateTime → Option Instant
ensure_utc none = none
ensure_utc (some (naive t)) = some t
ensure_utc (some (aware t)) = some t

-- A DateTime column comes back naive.
abbrev pub column : Option Instant → Option DateTime
column none = none
column (some t) = some (naive t)

-- `a or b` on datetimes, which are always true.
abbrev pub or_else {ℓ} : {A : Type ℓ} → Option A → A → A
or_else none d = d
or_else (some a) d = a

abbrev pub or_next {ℓ} : {A : Type ℓ} → Option A → Option A → Option A
or_next none o = o
or_next (some a) o = some a

-- timedelta(minutes=5)
abbrev pub five_minutes : ℕ
five_minutes = 300_000_000

record CivilDate : Type 0 where
  year : ℕ
  month : ℕ
  day : ℕ

-- The Gregorian date of a day number, counted from 1970-01-01.
civil : ℕ → CivilDate
civil days =
    let z = days + 719_468 in
    let doe = z % 146_097 in
    let yoe = (doe - doe / 1460 + doe / 36_524 - doe / 146_096) / 365 in
    let doy = doe - (365 * yoe + yoe / 4 - yoe / 100) in
    let mp = (5 * doy + 2) / 153 in
    let month = if ltb mp 10 then mp + 3 else mp - 9 in
    record {
      year = yoe + z / 146_097 * 400 + (if leb month 2 then 1 else 0);
      month = month;
      day = doy - (153 * mp + 2) / 5 + 1;
    }

-- `strftime("%Y%m%dT%H%M%S%fZ")`
unfoldable pub stamp : Instant → String
unfolding civil pad
stamp t =
    let s = t / 1_000_000 in
    let d = civil (s / 86_400) in
    pad 4 d.year (
      pad 2 d.month (
        pad 2 d.day (
          "T"
          ++ pad 2 (s / 3600 % 24)
              (pad 2 (s / 60 % 60) (pad 2 (s % 60) (pad 6 (t % 1_000_000) "Z"))))))

fraction : ℕ → String → String
unfolding pad
fraction us zone = if us == 0 then zone else "." ++ pad 6 us zone

isoformat_zone : String → Instant → String
unfolding civil pad fraction
isoformat_zone zone t =
    let s = t / 1_000_000 in
    let d = civil (s / 86_400) in
    pad 4 d.year (
      "-"
      ++ pad 2 d.month (
          "-"
          ++ pad 2 d.day (
              "T"
              ++ pad 2 (s / 3600 % 24) (
                  ":"
                  ++ pad 2 (s / 60 % 60) (":" ++ pad 2 (s % 60) (fraction (t % 1_000_000) zone))))))

-- `isoformat()` of a naive datetime, as a column gives it.
unfoldable pub isoformat : Instant → String
unfolding isoformat_zone
isoformat t = isoformat_zone "" t

-- `isoformat()` of an aware UTC datetime.
unfoldable pub isoformat_utc : Instant → String
unfolding isoformat_zone
isoformat_utc t = isoformat_zone "+00:00" t

-- `date().isoformat()`
unfoldable pub isoformat_date : Instant → String
unfolding civil pad
isoformat_date t =
    let d = civil (t / 86_400_000_000) in
    pad 4 d.year ("-" ++ pad 2 d.month ("-" ++ pad 2 d.day ""))

stamp_test : stamp 1_709_210_096_000_007 ≡ "20240229T123456000007Z"
unfolding stamp
stamp_test = refl

isoformat_test : isoformat_utc 1_709_210_096_000_000 ≡ "2024-02-29T12:34:56+00:00"
unfolding isoformat_utc
isoformat_test = refl
