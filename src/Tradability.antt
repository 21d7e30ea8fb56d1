-- ===== src/Tradability.antt =====
-- src/server/tradabilityGuard.ts: whether the broker lets an asset be traded, with its cache.
use quantpaca.Base.{ℕ, Bool, true, false, ◌&&◌, List, [], Option, none, some, if◌then◌else◌}
use quantpaca.Js.Number.{Number, num, lt}
use quantpaca.Js.Arith.{sub}
use quantpaca.Js.Text.{Text, text, text_eq}
use quantpaca.Js.Value.{Value, property}
use quantpaca.Js.Object.{lookup, store}
use quantpaca.Trading.Types.{
  TradabilityReason, from_cache, tradable_and_active, asset_response_code, asset_inactive,
  asset_check_threw,
}
pub mod Cache

abbrev pub asset_tradability_cache_ttl_ms : ℕ
asset_tradability_cache_ttl_ms = 86400000

-- `positiveCache`: when each symbol was last found tradable.
abbrev pub PositiveCache : Type 0
PositiveCache = List (Text × Number)

pub record TradabilityCheckResult : Type 0 where
  pub tradable : Bool
  pub reason : TradabilityReason
  pub from_cache : Bool

-- What the request comes to; a body that cannot be read is null.
pub data AssetResponse : Type 0 where
  asset_threw : Text → AssetResponse
  asset_not_ok : Number → AssetResponse
  asset_body : Value → AssetResponse

is_true : Value → Bool
is_true (Value.bool b) = b
is_true _ = false

is_active : Value → Bool
is_active (Value.string s) = text_eq s (text "active")
is_active _ = false

refused : TradabilityReason → TradabilityCheckResult
refused reason = record { tradable = false; reason = reason; from_cache = false }

-- The check once the broker has answered.
unfoldable pub read_asset :
    Text → Number → PositiveCache → AssetResponse → TradabilityCheckResult × PositiveCache
unfolding refused is_true is_active
read_asset symbol now cache (asset_threw message) =
    (refused (asset_check_threw symbol message), cache)
read_asset symbol now cache (asset_not_ok code) = (refused (asset_response_code symbol code), cache)
read_asset symbol now cache (asset_body body) =
    let tradable = is_true (property (text "tradable") body) in
    let status = property (text "status") body in
    if tradable && is_active status
    then (
      record { tradable = true; reason = tradable_and_active symbol; from_cache = false },
      store symbol now cache,
    )
    else (refused (asset_inactive symbol tradable status), cache)

pub is_fresh : Number → Option Number → Bool
is_fresh now none = false
is_fresh now (some checked) = lt (sub now checked) (num asset_tradability_cache_ttl_ms)

-- The result and the cache after it. The broker is asked only without a fresh entry.
unfoldable pub check_asset_tradable :
    Text → Number → (Text → AssetResponse) → PositiveCache → TradabilityCheckResult × PositiveCache
unfolding is_fresh read_asset
check_asset_tradable symbol now fetch cache =
    if is_fresh now (lookup symbol cache)
    then (record { tradable = true; reason = from_cache symbol; from_cache = true }, cache)
    else read_asset symbol now cache (fetch symbol)
