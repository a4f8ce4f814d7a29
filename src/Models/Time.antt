-- ===== src/Models/Time.antt =====
-- Dates: `timedelta(days=n)`, the largest `datetime`, `strftime("%Y-%m-%d")`, and the two properties
-- of accounts/models.py that compare an expiry date with the clock.
use ssh_panel_vpn.Common.{
  ℕ, ◌+◌, ◌-◌, ◌*◌, ◌/◌, ◌%◌, ◌≡◌, refl, Bool, ◌++◌, [], ◌∷◌, ltb, leb, if◌then◌else◌,
}
use ssh_panel_vpn.Common.Text.{Text, codes}

abbrev pub day : ℕ
day = 86400000000

-- `datetime.max`: the last microsecond of the year 9999.
abbrev pub datetime_max : ℕ
datetime_max = 253402300799999999

-- `SSHAccount.is_expired`
unfoldable pub is_expired : ℕ → ℕ → Bool
is_expired now expire_date = leb expire_date now

-- `SSHAccount.days_remaining`: whole days, and 0 when the date has passed.
unfoldable pub days_remaining : ℕ → ℕ → ℕ
days_remaining now expire_date = (expire_date - now) / day

-- Two digits, as `%m` and `%d` print them.
abbrev two_digits : ℕ → Text
two_digits n = (48 + n / 10) ∷ (48 + n % 10) ∷ []

-- `%Y` of the years 1970 to 9999.
abbrev four_digits : ℕ → Text
four_digits n = (48 + n / 1000) ∷ (48 + n / 100 % 10) ∷ (48 + n / 10 % 10) ∷ (48 + n % 10) ∷ []

-- The civil date of a day number, counted in eras of 400 years from 0000-03-01.
-- `doe` is the day of the era, `yoe` its year, `doy` the day of the year that begins in March.
pub year_of_era : ℕ → ℕ
year_of_era doe = (doe + doe / 36524 - doe / 1460 - doe / 146096) / 365

pub day_of_year : ℕ → ℕ
unfolding year_of_era
day_of_year doe = let yoe = year_of_era doe in doe + yoe / 100 - (365 * yoe + yoe / 4)

unfoldable pub strftime_date : ℕ → Text
unfolding year_of_era day_of_year
strftime_date t =
    let z = t / day + 719468 in
    let doe = z % 146097 in
    let doy = day_of_year doe in
    let mp = (5 * doy + 2) / 153 in
    let month = if ltb mp 10 then mp + 3 else mp - 9 in
    let year = year_of_era doe + z / 146097 * 400 + (if leb month 2 then 1 else 0) in
    four_digits year ++ 45 ∷ two_digits month ++ 45 ∷ two_digits (doy - (153 * mp + 2) / 5 + 1)

strftime_date_leap : strftime_date (1709164800000000 + 5) ≡ codes "2024-02-29"
unfolding strftime_date codes
strftime_date_leap = refl
