-- ===== src/Stream.antt =====
-- services/control-plane/internal/httpapi/run_events.go: the event stream of a run, and its cursor.
pub mod Delivery
use Prim.Native.Char.{code}
use harness_forge.Base.{
  ℕ, ◌+◌, ◌-◌, ◌*◌, ◌^◌, String, Bool, true, false, not, ◌&&◌, ◌||◌, Option, none, some, List, [],
  ◌∷◌, ◌++◌, ltb, leb, ◌==◌, same_text, if◌then◌else◌,
}
use harness_forge.Base.Text.{parse_uint}
use harness_forge.Schema.{Event, Database}
use harness_forge.Events.{list_events, max_int64}

abbrev capped : Option ℕ → Option ℕ
capped none = none
capped (some n) = some (if ltb max_int64 n then max_int64 else n)

-- eventCursor; `none` is the invalid request. `query` is after_sequence, `header` Last-Event-ID.
unfoldable event_cursor : String → String → Bool → Option ℕ
unfolding parse_uint
event_cursor query header stream =
    let raw = if stream && not (same_text header "") then header else query in
    if same_text raw "" then some 0 else capped (parse_uint raw)

-- The variables of the loop of `stream`: the cursor, and what has been written.
pub record Stream : Type 0 where
  pub cursor : ℕ
  pub sent : List Event

-- for _, event := range events { write(event); after = event.Sequence }
unfoldable pub send : List Event → Stream → Stream
send [] s = s
send (e ∷ events) s = send events (record s { cursor = e.sequence; sent = s.sent ++ e ∷ [] })

-- One round: read the events behind the cursor, and send them.
unfoldable pub poll : ℕ → Database → Stream → Stream
poll id db s = send (list_events id s.cursor db) s

-- the name of the SSE frame: a type with a line break would forge other fields
has_line_break : String → Bool
has_line_break String.[] = false
has_line_break (String.◌∷◌ c rest) = code c == 13 || code c == 10 || has_line_break rest

unfoldable frame_name : String → String
unfolding has_line_break
frame_name kind = if has_line_break kind then "message" else kind
