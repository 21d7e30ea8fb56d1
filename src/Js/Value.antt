-- ===== src/Js/Value.antt =====
-- Values of unknown type: what `JSON.parse`, a broker's reply or an `unknown` argument may hold.
use quantpaca.Base.{Bool, true, false, if◌then◌else◌, List, [], ◌∷◌, ◌++◌, Option, none, some}
use quantpaca.Js.Number.{Number}
use quantpaca.Js.Text.{Text, text, text_eq}

mutual
  pub data Value : Type 0 where
    undefined : Value
    null : Value
    bool : Bool → Value
    number : Number → Value
    string : Text → Value
    array : Items → Value
    object : Fields → Value

  pub data Items : Type 0 where
    nil : Items
    cons : Value → Items → Items

  pub data Fields : Type 0 where
    end : Fields
    field : Text → Value → Fields → Fields

-- The value of a key; a missing one is `undefined`.
unfoldable pub get : Text → Fields → Value
get k end = undefined
get k (field j v fs) = let rest = get k fs in if text_eq j k then v else rest

-- `v?.k`: a property of anything but an object is `undefined` for the keys that the program reads.
unfoldable pub property : Text → Value → Value
unfolding get
property k (object fs) = get k fs
property k _ = undefined

-- `typeof v === "string" ? v : undefined`
unfoldable pub as_string : Value → Option Text
as_string (string s) = some s
as_string _ = none

unfoldable pub values_of : Items → List Value
values_of nil = []
values_of (cons v vs) = v ∷ values_of vs

bool_text : Bool → Text
bool_text true = text "true"
bool_text false = text "false"

-- `String(v)`, with the text of a number as a parameter. An array joins its items, of which null
-- and undefined are empty; an object has no `toString` key of its own.
module _ (show_number : Number → Text) where
  mutual
    unfolding bool_text

    joined : Items → Text
    joined nil = []
    joined (cons v nil) = item_text v
    joined (cons v (cons w vs)) = item_text v ++ (text "," ++ joined (cons w vs))

    item_text : Value → Text
    item_text undefined = []
    item_text null = []
    item_text (bool b) = bool_text b
    item_text (number n) = show_number n
    item_text (string s) = s
    item_text (array vs) = joined vs
    item_text (object fs) = text "[object Object]"

  unfoldable pub string_of : Value → Text
  unfolding item_text
  string_of undefined = text "undefined"
  string_of null = text "null"
  string_of v = item_text v
