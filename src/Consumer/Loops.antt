-- ===== src/Consumer/Loops.antt =====
-- The loops of `consumeFunction` (runtimes/ts/pkg/consumer.ts) side by side: each has its messages
-- that wait and the call that it is at, and any loop may run from one wait to the next.
pub mod Turns
pub mod Results
pub mod Courses
pub mod Alone
pub mod Reloading
pub mod Reloaded
pub mod Refreshing
pub mod Behind
use litefunctions.Prelude.{ℕ, ◌+◌, Bool, List, [], ◌∷◌, ◌++◌, if◌then◌else◌}
use litefunctions.Prelude.Exec.{Result}
use litefunctions.Text.{Text, text_eq}
use litefunctions.Text.Utf8.{Bytes}
use litefunctions.Conf.{Settings}
use litefunctions.Value.{View}
use litefunctions.World.{World, Engine, LoadedModule, publish}
use litefunctions.Functions.Modules.{call_handle, to_request_like}
use litefunctions.Functions.Modules.Loads.{
  Load, resolving, importing, committing, finished, begin, advance,
}
use litefunctions.Consumer.{res_subject, request_id}

-- Where a loop waits: for a message, in the load of its function for a message, or between two
-- outputs of a call, with those that are still to come.
pub data Round : Type 0 where
  idle : Round
  loading : Text → View → Load → Round
  yielding : Text → List Bytes → Round

-- A loop, and the messages that its subscription holds for it: subject and payload, oldest first.
pub record Loop : Type 0 where
  pub waiting : List (Text × View)
  pub round : Round

-- `for await (const msg of sub)`: the next message is taken, and `invokeModule` begins.
unfoldable pub take_message : Text → List (Text × View) → World → Loop
unfolding begin
take_message name [] w = record { waiting = []; round = idle }
take_message name ((subject, payload) ∷ q) w = record {
  waiting = q;
  round = loading subject payload (begin name w);
}

-- The load goes on; when it has ended, `handle` is called, or the error ends the call.
unfoldable pub go_on : Engine → Text → Text → View → Load → World → Round × World
unfolding advance to_request_like
go_on e name subject payload resolving w =
    let (l, w') = advance e name resolving w in (loading subject payload l, w')
go_on e name subject payload (importing p v) w =
    let (l, w') = advance e name (importing p v) w in (loading subject payload l, w')
go_on e name subject payload (committing m) w =
    let (l, w') = advance e name (committing m) w in (loading subject payload l, w')
go_on e name subject payload (finished r) w =
    (yielding subject (call_handle name (to_request_like e payload) r).outputs, w)

abbrev publish_one : Settings → Text → Text → Bytes → World → World
publish_one s name subject out w = record w {
  client = publish (res_subject s name (request_id subject)) out w.client;
}

abbrev turn_round : Engine → Settings → Text → Round → List (Text × View) → World → Loop × World
turn_round e s name idle q w = (take_message name q w, w)
turn_round e s name (loading subject payload l) q w =
    let (r, w') = go_on e name subject payload l w in (record { waiting = q; round = r }, w')
turn_round e s name (yielding subject []) q w = (record { waiting = q; round = idle }, w)
turn_round e s name (yielding subject (out ∷ outs)) q w =
    (record { waiting = q; round = yielding subject outs }, publish_one s name subject out w)

-- What the loop of a function does from one wait to the next.
unfoldable pub turn : Engine → Settings → Text → Loop → World → Loop × World
unfolding take_message go_on publish request_id
turn e s name l w = turn_round e s name l.round l.waiting w

-- The world, and the loop of each function's name.
pub record Running : Type 0 where
  pub world : World
  pub loops : Text → Loop

abbrev pub update : Text → Loop → (Text → Loop) → Text → Loop
update name l loops k = if text_eq name k then l else loops k

-- What comes next: a message for a function arrives, or its loop runs on.
pub data Event : Type 0 where
  arrive : Text → Text → View → Event
  run_on : Text → Event

unfoldable pub happen : Engine → Settings → Event → Running → Running
unfolding turn text_eq
happen e s (arrive name subject payload) r =
    let l = r.loops name in
    record r {
      loops = update name (record l { waiting = l.waiting ++ (subject, payload) ∷ [] }) r.loops;
    }
happen e s (run_on name) r =
    let (l, w) = turn e s name (r.loops name) r.world in
    record { world = w; loops = update name l r.loops }

-- A course of events.
unfoldable pub course : Engine → Settings → List Event → Running → Running
unfolding happen
course e s [] r = r
course e s (a ∷ events) r = course e s events (happen e s a r)
