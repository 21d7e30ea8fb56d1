-- ===== src/Sources/Defaults.antt =====
-- The default sources of src/server/sourceRegistry.ts, and how an entry is written.
use quantpaca.Base.{Bool, true, false, List, [], ◌∷◌, Option, none, some}
use quantpaca.Js.Number.{Number, num}
use quantpaca.Js.Text.{Text, text}
use quantpaca.Js.Value.{Value, Items, Fields}
use quantpaca.Signals.Review.{TrustTier, high, medium, low}

pub record SourceConfig : Type 0 where
  pub id : Text
  pub gmail_query : Text
  pub sender_allowlist : List Text
  pub trust_tier : TrustTier
  pub max_age_hours : Number
  pub enabled : Bool
  pub prompt_hint : Option Text

-- A default source with its `_comment`.
pub record DefaultSource : Type 0 where
  pub source : SourceConfig
  pub comment : Option Text

motley_fool_prompt_hint : Text
motley_fool_prompt_hint =
    text
      "This is a Motley Fool premium recommendation newsletter. Extract the PRIMARY recommendation: the specific ticker being recommended as a new BUY, or an explicit SELL instruction. Service names (Epic Portfolio, Hidden Gems, Rule Breakers) indicate recommendation letters; ignore performance recaps and marketing copy. Multiple tickers: choose the headline recommendation only."

michael_burry_prompt_hint : Text
michael_burry_prompt_hint =
    text
      "This is Michael Burry's investment newsletter. Trading Post issues contain explicit position buys/adds; Short Thoughts issues contain bearish/short theses. Extract the primary ticker and stance. A bearish or short thesis is decision SELL with direction 'bearish' — this system never opens shorts; bearish means exit or avoid. A buy/add is decision BUY."

motley_fool_comment : Text
motley_fool_comment =
    text
      "Disabled by default. Motley Fool is a paid membership -- review a few recommendation emails against promptHint, then set \"enabled\": true to activate. No code change needed. See docs/GO_LIVE_PLAN.md Phase 2.4."

michael_burry_comment : Text
michael_burry_comment =
    text
      "Disabled by default. Review a few Trading Post / Short Thoughts emails against promptHint, then set \"enabled\": true to activate. No code change needed. See docs/GO_LIVE_PLAN.md Phase 2.4."

unfoldable pub default_sources : List DefaultSource
unfolding motley_fool_prompt_hint michael_burry_prompt_hint motley_fool_comment
    michael_burry_comment
default_sources =
    record {
      source = record {
        id = text "ziptrader";
        gmail_query = text "from:charlie-from-ziptrader@ghost.io";
        sender_allowlist = text "charlie-from-ziptrader@ghost.io" ∷ [];
        trust_tier = high;
        max_age_hours = num 72;
        enabled = true;
        prompt_hint = none;
      };
      comment = none;
    }
    ∷ record {
      source = record {
        id = text "motley-fool";
        gmail_query = text "from:fool@motley.fool.com";
        sender_allowlist = text "fool@motley.fool.com" ∷ [];
        trust_tier = high;
        max_age_hours = num 96;
        enabled = false;
        prompt_hint = some motley_fool_prompt_hint;
      };
      comment = some motley_fool_comment;
    }
    ∷ record {
      source = record {
        id = text "michael-burry";
        gmail_query = text "from:michaeljburry@substack.com";
        sender_allowlist = text "michaeljburry@substack.com" ∷ [];
        trust_tier = medium;
        max_age_hours = num 96;
        enabled = false;
        prompt_hint = some michael_burry_prompt_hint;
      };
      comment = some michael_burry_comment;
    }
    ∷ []

tier_text : TrustTier → Text
tier_text high = text "high"
tier_text medium = text "medium"
tier_text low = text "low"

string_items : List Text → Items
string_items [] = Items.nil
string_items (t ∷ ts) = Items.cons (Value.string t) (string_items ts)

optional_field : Text → Option Text → Fields → Fields
optional_field key none rest = rest
optional_field key (some t) rest = Fields.field key (Value.string t) rest

-- The fields of an entry in the file, with its `enabled`.
unfoldable pub file_fields : DefaultSource → Bool → Fields
unfolding tier_text string_items optional_field
file_fields d enabled =
    let source = d.source in
    Fields.field (text "id") (Value.string source.id) (
      Fields.field (text "gmailQuery") (Value.string source.gmail_query) (
        Fields.field (text "senderAllowlist") (Value.array (string_items source.sender_allowlist)) (
          Fields.field (text "trustTier") (Value.string (tier_text source.trust_tier)) (
            Fields.field (text "maxAgeHours") (Value.number source.max_age_hours) (
              Fields.field (text "enabled") (Value.bool enabled) (
                optional_field (text "promptHint") source.prompt_hint
                  (optional_field (text "_comment") d.comment Fields.end)))))))
