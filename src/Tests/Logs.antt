-- ===== src/Tests/Logs.antt =====
-- The log line of the sale of `alice.fun`.
use hos_tla.Base.{◌*◌, ◌-◌, Option, some, Text, text}
use hos_tla.Types.{one_near}
use hos_tla.Registry.{Event}
use hos_tla.Logs.Values.{Object}
use hos_tla.Logs.Fields.{event_data}
use hos_tla.Tests.Scenario.{alice, bob, fun, key}

abbrev sold : Event
sold = Event.sub_account_sold key fun alice bob (5 * one_near) 250 (5 * one_near - 250)

-- A serialiser and a parser for this event only.
abbrev sold_json : Text
sold_json =
    text
      "{\"full_name\":\"alice.fun\",\"tla_id\":\"fun\",\"seller\":\"alice.near\",\"buyer\":\"bob.near\",\"price_yocto\":\"5000000000000000000000000\",\"commission_yocto\":\"250\",\"seller_proceeds_yocto\":\"4999999999999999999999750\"}"

abbrev to_sold : Object → Option Text
to_sold _ = some sold_json

abbrev of_sold : Text → Option Object
of_sold _ = some (event_data sold)
