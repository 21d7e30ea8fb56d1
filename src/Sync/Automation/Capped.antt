-- ===== src/Sync/Automation/Capped.antt =====
-- What the trades of a cycle have in common.
use quantpaca.Js.Number.{Number}
use quantpaca.Js.Text.{Text}
