-- ===== src/Logs/LineReader.antt =====
-- The lines of the log are read back.
use hos_tla.Base.{
  ℕ, Bool, true, Option, none, some, [], ◌∷◌, Text, text, nat_eq, if◌then◌else◌, ◌&&◌, not,
}
use hos_tla.Registry.{Event}
use hos_tla.Logs.Values.{Object}
use hos_tla.Logs.EventReader.{read_event}

-- What a reader expects of a line of this contract, before the name of the event and after it.
unfoldable pub expected_start : Text
expected_start = text "EVENT_JSON:{\"standard\":\"hos-tla\",\"version\":\"1.0.0\",\"event\":\""

unfoldable pub expected_middle : Text
expected_middle = text "\",\"data\":"

-- What follows a text, if the line begins with it.
abbrev after : Text → Text → Option Text
after [] line = some line
after (c ∷ cs) [] = none
after (c ∷ cs) (d ∷ line) = let rest = after cs line in if nat_eq c d then rest else none

-- The line up to the next quotation mark, and from it on.
abbrev up_to_quote : Text → Text
up_to_quote [] = []
up_to_quote (c ∷ line) = let rest = up_to_quote line in if nat_eq c b'"' then [] else c ∷ rest

abbrev from_quote : Text → Text
from_quote [] = []
from_quote (c ∷ line) = let rest = from_quote line in if nat_eq c b'"' then c ∷ line else rest

-- The line up to the brace that closes it.
abbrev with_first : ℕ → Option Text → Option Text
with_first c none = none
with_first c (some s) = some (c ∷ s)

abbrev up_to_brace : Text → Option Text
up_to_brace [] = none
up_to_brace (c ∷ []) = if nat_eq c b'}' then some [] else none
up_to_brace (c ∷ d ∷ line) = with_first c (up_to_brace (d ∷ line))

abbrev no_quote : Text → Bool
no_quote [] = true
no_quote (c ∷ s) = not (nat_eq c b'"') && no_quote s

abbrev read_data : Text → Option Object → Option Event
read_data name none = none
read_data name (some o) = read_event name o

abbrev read_json : (Text → Option Object) → Text → Option Text → Option Event
read_json of_string name none = none
read_json of_string name (some json) = read_data name (of_string json)

abbrev read_rest : (Text → Option Object) → Text → Option Text → Option Event
read_rest of_string name none = none
read_rest of_string name (some rest) = read_json of_string name (up_to_brace rest)

abbrev read_named : (Text → Option Object) → Option Text → Option Event
read_named of_string none = none
read_named of_string (some line) =
    read_rest of_string (up_to_quote line) (after expected_middle (from_quote line))

-- A reader of log lines, by a reader of JSON objects.
unfoldable pub read_line : (Text → Option Object) → Text → Option Event
read_line of_string line = read_named of_string (after expected_start line)
