-- ===== src/Trading/OrderId.antt =====
-- src/server/tradingSafety.ts, `deriveClientOrderId`. The hash of node:crypto and the text of a
-- number in a template are parameters.
use quantpaca.Base.{ℕ, ◌+◌, ◌-◌, ◌*◌, ◌/◌, ◌%◌, [], ◌∷◌, ◌++◌, leb, ltb, if◌then◌else◌}
use quantpaca.Js.Number.{Number, finite, unit}
use quantpaca.Js.Text.{Text, text}
use quantpaca.Trading.Types.{
  Side, buy, sell, Source, manual, telegram, automation, stop_loss, emergency, broker_leg_fill,
}

unfoldable pub side_text : Side → Text
side_text buy = text "buy"
side_text sell = text "sell"

unfoldable pub source_text : Source → Text
source_text manual = text "manual"
source_text telegram = text "telegram"
source_text automation = text "automation"
source_text stop_loss = text "stop_loss"
source_text emergency = text "emergency"
source_text broker_leg_fill = text "broker_leg_fill"

two_digits : ℕ → Text
two_digits n = (b'0' + n / 10 % 10) ∷ (b'0' + n % 10) ∷ []

-- The calendar day of a count of days since 1970-01-01, as year, month and day.
civil : ℕ → ℕ × ℕ × ℕ
civil days =
    let z = days + 719468 in
    let day_of_era = z % 146097 in
    let year_of_era =
      (day_of_era - day_of_era / 1460 + day_of_era / 36524 - day_of_era / 146096) / 365 in
    let day_of_year = day_of_era - (365 * year_of_era + year_of_era / 4 - year_of_era / 100) in
    let m = (5 * day_of_year + 2) / 153 in
    let day = day_of_year - (153 * m + 2) / 5 + 1 in
    let month = if ltb m 10 then m + 3 else m - 9 in
    let year = year_of_era + z / 146097 * 400 in
    (if leb month 2 then year + 1 else year, month, day)

-- `timestamp.slice(0, 10)` of an ISO timestamp from 1970 to 9999, given in milliseconds.
unfoldable pub iso_day : Number → Text
unfolding civil two_digits unit
iso_day (finite s m) =
    let (y, month, day) = civil (m / unit / 86400000) in
    two_digits (y / 100)
    ++ (two_digits (y % 100) ++ (b'-' ∷ (two_digits month ++ (b'-' ∷ two_digits day))))
iso_day _ = []

module _ (sha256_hex : Text → Text) (show_number : Number → Text) where
  -- The text that is hashed: symbol|side|qty|source|date.
  unfoldable pub material : Text → Side → Number → Source → Text → Text
  material symbol side qty source date =
      symbol
      ++ (b'|'
          ∷ (side_text side
              ++ (b'|' ∷ (show_number qty ++ (b'|' ∷ (source_text source ++ (b'|' ∷ date)))))))

  unfoldable pub derive_client_order_id : Text → Side → Number → Source → Text → Text
  unfolding material
  derive_client_order_id symbol side qty source date =
      text "qp-" ++ sha256_hex (material symbol side qty source date)
