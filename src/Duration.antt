-- ===== src/Duration.antt =====
-- packages/verdict-engine/src/rules/r2-mutable-logic.ts: `humanDuration`, on whole seconds. The
-- hours are a double, whose `toFixed(1)` is written out on its 53-bit significand.
use Prim.Native.String
use presign.Prelude.{
  ℕ, ◌+◌, ◌-◌, ◌*◌, ◌/◌, ◌%◌, ◌^◌, String, ltb, eqb, if◌then◌else◌, decimal, zeros_before, text_of,
  [], ◌∷◌, ◌≡◌, refl,
}

-- The exponent that the significand of `s / 3600` is scaled by, for less than 64 hours.
abbrev hour_bits : ℕ → ℕ
hour_bits s =
    if ltb s 7200
    then 52
    else if ltb s 14400
    then 51
    else if ltb s 28800
    then 50
    else if ltb s 57600
    then 49
    else if ltb s 115200
    then 48
    else 47

-- The nearest double to `s / 3600` in tenths, as `toFixed(1)` rounds it: to the nearest, up on a
-- tie. The division by 3600 has no tie.
unfoldable pub tenths_of_hours : ℕ → ℕ
tenths_of_hours s =
    let unit = 2 ^ hour_bits s in
    let significand = (s * unit * 2 + 3600) / 7200 in (significand * 20 + unit) / (unit * 2)

unfoldable pub human_duration : ℕ → String
unfolding tenths_of_hours decimal
human_duration seconds =
    let minutes = (seconds + 30) / 60 in
    let tenths = tenths_of_hours seconds in
    if ltb seconds 90
    then String.◌++◌ (decimal seconds) " seconds"
    else if ltb minutes 90
    then String.◌++◌ (decimal minutes) (if eqb minutes 1 then " minute" else " minutes")
    else if ltb seconds 172800
    then String.◌++◌ (decimal (tenths / 10))
        (String.◌++◌ "." (String.◌++◌ (decimal (tenths % 10)) " hours"))
    else String.◌++◌ (decimal ((seconds + 43200) / 86400)) " days"

-- A number with at least `width` digits.
unfoldable pub padded : ℕ → ℕ → String
unfolding decimal zeros_before
padded width n = let digits = decimal n in zeros_before (width - String.count digits) digits

-- `Date.toISOString`, of milliseconds since 1970 and before the year 10000: the civil date of a day
-- by its place in a period of 400 years that begin in March.
unfoldable pub iso_string : ℕ → String
unfolding padded text_of
iso_string ms =
    let day = ms / 86400000 + 719468 in
    let in_period = day % 146097 in
    let year_of_period =
      (in_period - in_period / 1460 + in_period / 36524 - in_period / 146096) / 365 in
    let day_of_year =
      in_period - (365 * year_of_period + year_of_period / 4 - year_of_period / 100) in
    let march_month = (5 * day_of_year + 2) / 153 in
    let day_of_month = day_of_year - (153 * march_month + 2) / 5 + 1 in
    let month = if ltb march_month 10 then march_month + 3 else march_month - 9 in
    let year = year_of_period + day / 146097 * 400 + (if ltb month 3 then 1 else 0) in
    text_of (
      padded 4 year
      ∷ "-"
      ∷ padded 2 month
      ∷ "-"
      ∷ padded 2 day_of_month
      ∷ "T"
      ∷ padded 2 (ms / 3600000 % 24)
      ∷ ":"
      ∷ padded 2 (ms / 60000 % 60)
      ∷ ":"
      ∷ padded 2 (ms / 1000 % 60)
      ∷ "."
      ∷ padded 3 (ms % 1000)
      ∷ "Z"
      ∷ [])

leap_day : iso_string 1709215445006 ≡ "2024-02-29T14:04:05.006Z"
unfolding iso_string
leap_day = refl

thirty_one_hours : human_duration 111780 ≡ "31.1 hours"
unfolding human_duration
thirty_one_hours = refl
