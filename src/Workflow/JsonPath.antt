-- ===== src/Workflow/JsonPath.antt =====
-- `supportedJSONPath` (internal/workflow/capabilities.go) and `jsonPathValue`
-- (internal/workflow/extract.go): the paths that are read, and what they lead to.
use Prim.Native.Char.{code}
use Prim.Native.String.{String}
use get_magnet.Common.{
  ℕ, zero, suc, ◌==◌, leb, Bool, true, false, ◌&&◌, ◌||◌, Option, none, some, List, [], ◌∷◌,
  if◌then◌else◌, trim_space,
}
use get_magnet.Json.{ℤ, pos, negsuc, Value, null, array, object, Items, no_items, item, members}
use get_magnet.Json.Objects.{lookup}
use get_magnet.Record.Integers.{parse_int64}

-- Where a path may go on: `boundary` is after `$` and after a bracket is closed.
pub data PathState : Type 0 where
  boundary dot name bracket index : PathState

abbrev pub is_letter : ℕ → Bool
is_letter c = (leb b'A' c && leb c b'Z') || (leb b'a' c && leb c b'z') || (c == b'_')

abbrev pub is_digit : ℕ → Bool
is_digit c = leb b'0' c && leb c b'9'

abbrev pub open_part : ℕ → Option PathState
open_part c =
    if c == b'.' then some PathState.dot else if c == b'[' then some PathState.bracket else none

unfoldable pub path_step : PathState → ℕ → Option PathState
path_step PathState.boundary c = open_part c
path_step PathState.dot c = if is_letter c then some PathState.name else none
path_step PathState.name c =
    if is_letter c || is_digit c || (c == b'-') then some PathState.name else open_part c
path_step PathState.bracket c = if is_digit c then some PathState.index else none
path_step PathState.index c =
    if is_digit c then some PathState.index else if c == b']' then some PathState.boundary else none

abbrev pub may_end : PathState → Bool
may_end PathState.boundary = true
may_end PathState.name = true
may_end _ = false

unfoldable pub accepts : PathState → String → Bool
unfolding path_step
accepts state String.[] = may_end state
accepts state (String.◌∷◌ c s) = elim (path_step state (code c)) [
  | none ↦ false
  | some next ↦ accepts next s
]

unfoldable pub supported_path : String → Bool
unfolding accepts
supported_path String.[] = false
supported_path (String.◌∷◌ c s) = (code c == b'$') && accepts PathState.boundary s

-- Puts a part before others, unless it is empty.
abbrev pub add_part : String → List String → List String
add_part String.[] parts = parts
add_part (String.◌∷◌ c s) parts = String.◌∷◌ c s ∷ parts

-- The part that a text begins with, and the others: `.` and `[` part them, `]` is dropped.
unfoldable pub split_path : String → String × List String
split_path String.[] = (String.[], [])
split_path (String.◌∷◌ c s) =
    let (part, parts) = split_path s in
    if (code c == b'.') || (code c == b'[')
    then (String.[], add_part part parts)
    else if code c == b']'
    then (part, parts)
    else (String.◌∷◌ c part, parts)

unfoldable pub path_parts : String → List String
unfolding split_path
path_parts String.[] = []
path_parts (String.◌∷◌ c s) = let (part, parts) = split_path s in add_part part parts

unfoldable pub nth : ℕ → Items → Value
nth n no_items = null
nth zero (item v vs) = v
nth (suc n) (item v vs) = nth n vs

-- `strconv.Atoi`, and nil out of range.
unfoldable pub at_index : Option ℤ → Items → Value
unfolding nth
at_index none vs = null
at_index (some (pos n)) vs = nth n vs
at_index (some (negsuc n)) vs = null

abbrev pub or_null : Option Value → Value
or_null none = null
or_null (some v) = v

unfoldable pub child : String → Value → Value
unfolding at_index
child part (object m) = or_null (lookup part (members m))
child part (array vs) = at_index (parse_int64 part) vs
child part _ = null

unfoldable pub walk : List String → Value → Value
unfolding child
walk [] v = v
walk (part ∷ parts) v = walk parts (child part v)

-- `none` is the error of an unsupported path.
unfoldable pub json_path_value : Value → String → Option Value
unfolding supported_path path_parts walk
json_path_value root path =
    let p = trim_space path in if supported_path p then some (walk (path_parts p) root) else none
