-- ===== src/SenderPolicy.antt =====
-- src/server/senderPolicy.ts: which senders of messages are read. An address that a header does not
-- have is `none`.
use quantpaca.Base.{
  Bool, true, false, not, ◌&&◌, ◌||◌, List, [], ◌∷◌, Option, none, some, if◌then◌else◌, any, map,
  ◌==◌, ℕ,
}
use quantpaca.Js.Text.{Text, text, filled, includes, trim, to_lower, ends_with}
pub mod Allowed

unfoldable pub global_sender_blocklist : List Text
global_sender_blocklist =
    text "noreply@robinhood.com"
    ∷ text "titan@investordelivery.com"
    ∷ text "fool@premiuminfo.fool.com"
    ∷ []

unfoldable pub global_sender_blocklist_domain_suffixes : List Text
global_sender_blocklist_domain_suffixes =
    text "@alpaca.markets" ∷ text "@ealerts.alpaca.markets" ∷ []

pub data SenderDecision : Type 0 where
  blocked : Text → Bool → SenderDecision
  allowed : Text → SenderDecision
  rejected : Option Text → SenderDecision

-- The text up to the next `>`, where there is one.
before_close : Text → Option Text
before_close [] = none
before_close (c ∷ s) =
    let rest = before_close s in
    if c == b'>' then some [] else elim rest [ none ↦ none | some t ↦ some (c ∷ t) ]

-- The capture of the first match of /<([^>]+)>/.
angle_match : Text → Option Text
unfolding before_close
angle_match [] = none
angle_match (c ∷ s) =
    let later = angle_match s in
    if c == b'<'
    then elim (before_close s) [ none ↦ none | some t ↦ if filled t then some t else later ]
    else later

normalized_address : Text → Option Text
normalized_address raw =
    let address = to_lower (trim raw) in if filled address then some address else none

-- `parseFromAddress`; an empty header has no address.
unfoldable pub parse_from_address : Option Text → Option Text
unfolding angle_match normalized_address
parse_from_address none = none
parse_from_address (some header) =
    if filled header
    then elim (angle_match header) [
      | none ↦ normalized_address header
      | some address ↦ normalized_address address
    ]
    else none

unfoldable pub is_blocklisted : Text → Bool
is_blocklisted address =
    includes global_sender_blocklist address
    || any (λ suffix. ends_with address suffix) global_sender_blocklist_domain_suffixes

unfoldable pub normalized_allowlist : List Text → List Text
normalized_allowlist allowlist = map (λ a. to_lower (trim a)) allowlist

decide_address : List Text → Option Text → SenderDecision
decide_address allowlist none = rejected none
decide_address allowlist (some address) =
    if is_blocklisted address
    then blocked address (includes allowlist address)
    else if includes allowlist address
    then allowed address
    else rejected (some address)

unfoldable pub evaluate_sender : Option Text → List Text → SenderDecision
unfolding decide_address
evaluate_sender header allowlist =
    decide_address (normalized_allowlist allowlist) (parse_from_address header)
