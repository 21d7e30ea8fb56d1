-- ===== src/Js.antt =====
-- What the program uses of JavaScript: numbers, texts and values of unknown type.
pub mod Object
pub mod Number
pub mod Arith
pub mod Order
pub mod Text
pub mod Numeral
pub mod Value
mod Tests
