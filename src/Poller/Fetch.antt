-- ===== src/Poller/Fetch.antt =====
-- src/server/orderStatusPoller.ts, `fetchBrokerOrder`. The network is a parameter.
use quantpaca.Base.{Bool, true, false, Option, none, some}
use quantpaca.Js.Number.{Number}
use quantpaca.Js.Text.{Text, text}
use quantpaca.Js.Value.{Value, Fields, get, as_string}
use quantpaca.NumericSafety.{ParsedFiniteNumber, ok, failed, parse_finite_number}
use quantpaca.Trading.Types.{FetchError, response_code, not_an_object, thrown}

-- What `fetch` and `res.json()` come to: a rejection, a response that is not ok, or a body.
pub data FetchOutcome : Type 0 where
  threw : Text → FetchOutcome
  not_ok : Number → FetchOutcome
  body : Value → FetchOutcome

pub record BrokerOrderPollResult : Type 0 where
  pub ok : Bool
  pub status : Option Text
  pub filled_qty : Option Number
  pub filled_avg_price : Option Number
  pub limit_price : Option Number
  pub stop_price : Option Number
  pub order_type : Option Text
  pub error_message : Option FetchError

abbrev parsed_or_none : ParsedFiniteNumber → Option Number
parsed_or_none (ok n) = some n
parsed_or_none (failed _) = none

unfoldable pub read_order : Fields → BrokerOrderPollResult
read_order fs = record {
  ok = true;
  status = as_string (get (text "status") fs);
  filled_qty =
      parsed_or_none (parse_finite_number (get (text "filled_qty") fs) (text "filled_qty"));
  filled_avg_price =
      parsed_or_none
        (parse_finite_number (get (text "filled_avg_price") fs) (text "filled_avg_price"));
  limit_price =
      parsed_or_none (parse_finite_number (get (text "limit_price") fs) (text "limit_price"));
  stop_price =
      parsed_or_none (parse_finite_number (get (text "stop_price") fs) (text "stop_price"));
  order_type = as_string (get (text "type") fs);
  error_message = none;
}

unfoldable pub poll_error : FetchError → BrokerOrderPollResult
poll_error e = record {
  ok = false;
  status = none;
  filled_qty = none;
  filled_avg_price = none;
  limit_price = none;
  stop_price = none;
  order_type = none;
  error_message = some e;
}

unfoldable pub read_outcome : Text → FetchOutcome → BrokerOrderPollResult
unfolding read_order poll_error
read_outcome order_id (threw message) = poll_error (thrown message)
read_outcome order_id (not_ok code) = poll_error (response_code order_id code)
read_outcome order_id (body (Value.object fs)) = read_order fs
read_outcome order_id (body _) = poll_error (not_an_object order_id)

unfoldable pub fetch_broker_order : (Text → FetchOutcome) → Text → BrokerOrderPollResult
unfolding read_outcome
fetch_broker_order fetch order_id = read_outcome order_id (fetch order_id)
