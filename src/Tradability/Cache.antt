-- ===== src/Tradability/Cache.antt =====
-- What src/server/tradabilityGuard.ts lets through.
use quantpaca.Base.{◌≡◌, ◌⊎◌, inr, refl, ap, true, false, arith}
use quantpaca.Js.Number.{Number}
use quantpaca.Js.Text.{Text, text, text_eq_sound, text_eq_refl}
use quantpaca.Js.Value.{Value, property}
use quantpaca.Js.Object.{lookup, store}
use quantpaca.Tradability.{
  AssetResponse, asset_threw, asset_not_ok, asset_body, PositiveCache, is_true, is_active, is_fresh,
  read_asset, check_asset_tradable,
}

-- The broker's word that an asset can be traded.
abbrev pub SaysActive : AssetResponse → Type 0
SaysActive (asset_body body) =
    (property (text "tradable") body ≡ Value.bool true)
    × (property (text "status") body ≡ Value.string (text "active"))
SaysActive _ = true ≡ false

true_of : (v : Value) → is_true v ≡ true → v ≡ Value.bool true
unfolding is_true
true_of (Value.bool b) h = cc
true_of Value.undefined h = cc
true_of Value.null h = cc
true_of (Value.number n) h = cc
true_of (Value.string s) h = cc
true_of (Value.array l) h = cc
true_of (Value.object l) h = cc

active_of : (v : Value) → is_active v ≡ true → v ≡ Value.string (text "active")
unfolding is_active
active_of (Value.string s) h = ap Value.string (text_eq_sound s (text "active") h)
active_of (Value.bool b) h = cc
active_of Value.undefined h = cc
active_of Value.null h = cc
active_of (Value.number n) h = cc
active_of (Value.array l) h = cc
active_of (Value.object l) h = cc

is_true_says : (v : Value) → v ≡ Value.bool true → is_true v ≡ true
unfolding is_true
is_true_says v h = rw h refl

is_active_says : (v : Value) → v ≡ Value.string (text "active") → is_active v ≡ true
unfolding is_active
is_active_says v h = rw h (text_eq_refl (text "active"))

Answered : Text → Number → PositiveCache → AssetResponse → Type 0
Answered symbol now cache response =
    let (result, after) = read_asset symbol now cache response in
    (SaysActive response × (result.tradable ≡ true) × (after ≡ store symbol now cache))
    ⊎ ((¬ SaysActive response) × (result.tradable ≡ false) × (after ≡ cache))

answered :
    (symbol : Text) (now : Number) (cache : PositiveCache) (response : AssetResponse)
    → Answered symbol now cache response
unfolding Answered read_asset is_true is_active
answered symbol now cache (asset_threw message) = inr (λ h. cc, refl, refl)
answered symbol now cache (asset_not_ok code) = inr (λ h. cc, refl, refl)
answered symbol now cache (asset_body body) =
    let tradable = property (text "tradable") body in
    let status = property (text "status") body in
    ground (arith, true_of tradable, active_of status, is_true_says tradable, is_active_says status)

-- A symbol is let through exactly if the cache holds it from less than a day before, or the broker
-- answers that it is tradable and active. The cache changes only by the broker's word, which it
-- then holds from now on.
pub check_asset_tradable_lem :
    (symbol : Text) (now : Number) (fetch : Text → AssetResponse) (cache : PositiveCache)
    → let (result, after) = check_asset_tradable symbol now fetch cache in
      ((is_fresh now (lookup symbol cache) ≡ true) × (result.tradable ≡ true) × (after ≡ cache))
      ⊎ ((is_fresh now (lookup symbol cache) ≡ false)
          × (SaysActive (fetch symbol))
          × (result.tradable ≡ true)
          × (after ≡ store symbol now cache))
      ⊎ ((is_fresh now (lookup symbol cache) ≡ false)
          × (¬ SaysActive (fetch symbol))
          × (result.tradable ≡ false)
          × (after ≡ cache))
unfolding check_asset_tradable Answered
check_asset_tradable_lem symbol now fetch cache =
    ground (arith, answered symbol now cache (fetch symbol))
