-- ===== src/SenderPolicy/Allowed.antt =====
-- Which messages a source may read.
use quantpaca.Base.{◌≡◌, ◌↔◌, true, false, Option, none, some, List, arith}
use quantpaca.Js.Text.{Text, includes}
use quantpaca.SenderPolicy.{
  allowed, evaluate_sender, decide_address, parse_from_address, is_blocklisted,
  normalized_allowlist,
}

allowed_address :
    (allowlist : List Text) (parsed : Option Text) (address : Text)
    → (decide_address allowlist parsed ≡ allowed address) ↔ (
        (parsed ≡ some address)
        × (is_blocklisted address ≡ false)
        × (includes allowlist address ≡ true))
unfolding decide_address
allowed_address allowlist none address = (λ h. cc, λ h. cc)
allowed_address allowlist (some given) address = (λ h. ground arith, λ h. ground arith)

-- A message is let through exactly if its header has an address that no block list has, whatever the
-- source allows, and that the source allows up to case and outer white space.
pub evaluate_sender_allowed_iff :
    (header : Option Text) (allowlist : List Text) (address : Text)
    → (evaluate_sender header allowlist ≡ allowed address) ↔ (
        (parse_from_address header ≡ some address)
        × (is_blocklisted address ≡ false)
        × (includes (normalized_allowlist allowlist) address ≡ true))
unfolding evaluate_sender
evaluate_sender_allowed_iff header allowlist address =
    allowed_address (normalized_allowlist allowlist) (parse_from_address header) address
