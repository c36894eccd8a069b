-- ===== src/Tests/Looping.antt =====
-- The loops of two functions side by side on the small runtime.
use litefunctions.Prelude.Exec.{ok}
use litefunctions.World.{World}
use litefunctions.Prelude.{map, some, ℕ, ◌≡◌, ◌≤◌, refl, List, [], ◌∷◌, ◌++◌, All, arith}
use litefunctions.Text.{Text, codes, text_eq}
use litefunctions.Text.Split.{Lacks}
use litefunctions.Text.Utf8.{encode}
use litefunctions.JsMap.{get}
use litefunctions.Fs.{find_node, path_eq, read_file, file_exists}
use litefunctions.Value.{View}
use litefunctions.Value.Emit.{emit}
use litefunctions.Functions.Modules.{imported, call_handle, to_request_like}
use litefunctions.Consumer.Loops.{idle, Running, Event, arrive, run_on, course}
use litefunctions.Consumer.Loops.Turns.{all_results, owed, rank, calls_rank}
use litefunctions.Consumer.Loops.Results.{results_for, arrived, turns, name_of, IsServing}
use litefunctions.Consumer.{res_subject}
use litefunctions.Consumer.Messages.{call_subject}
use litefunctions.Consumer.Loops.Alone.{turns_alone, turns_alone-call_subject}
use litefunctions.Consumer.Loops.Courses.{at_rest, course-results, course-done}
use litefunctions.Tests.Fixtures.{echo, engine, settings}
use litefunctions.Tests.Loading.{before, hi-IsCurrent}

looping : Unit {0}
unfolding course results_for all_results arrived turns calls_rank text_eq get imported file_exists
    read_file find_node path_eq emit
looping = tt

abbrev pub payload : View
payload = record { buffer = codes "xabcx"; byte_offset = 1; byte_length = 3 }

abbrev pub hi_name : Text
hi_name = codes "hi"

abbrev pub old_name : Text
old_name = codes "old"

abbrev pub call : Text → Text → Text
call name req_id = codes "demo." ++ (name ++ (codes ".exec.ts." ++ req_id))

-- A call of each function waits.
abbrev pub running : Running
running = record {
  world = before;
  loops = λ k. record { waiting = (call k (codes "1"), payload) ∷ []; round = idle };
}

-- The loops take turns, and another call of `hi` arrives.
abbrev events : List Event
events =
    run_on hi_name
    ∷ run_on old_name
    ∷ arrive hi_name (call hi_name (codes "2")) payload
    ∷ run_on hi_name
    ∷ run_on old_name
    ∷ run_on old_name
    ∷ run_on hi_name
    ∷ run_on hi_name
    ∷ []

serving : IsServing engine hi_name (codes "older") running
serving = (hi-IsCurrent, λ k. tt)

pub demo_lacks : Lacks b'.' settings.project
demo_lacks = omega arith

names_lack : All (λ a. Lacks b'.' (name_of a)) events
names_lack = omega arith

course-results_example :
    results_for hi_name (course engine settings events running).world.client.published
      ++ owed engine settings
          (codes "older")
          hi_name
          ((course engine settings events running).loops hi_name)
    ≡ (results_for hi_name running.world.client.published
        ++ owed engine settings (codes "older") hi_name (running.loops hi_name))
      ++ all_results engine settings (codes "older") hi_name (arrived hi_name events)
course-results_example =
    course-results engine settings hi_name (codes "older") demo_lacks events running serving
      names_lack

-- Both loops run on, and no call arrives.
abbrev turns_only : List Event
turns_only =
    run_on hi_name
    ∷ run_on old_name
    ∷ run_on hi_name
    ∷ run_on hi_name
    ∷ run_on old_name
    ∷ run_on hi_name
    ∷ run_on hi_name
    ∷ run_on old_name
    ∷ run_on hi_name
    ∷ run_on hi_name
    ∷ []

turns_lack : All (λ a. Lacks b'.' (name_of a)) turns_only
turns_lack = omega arith

none_arrives : arrived hi_name turns_only ≡ []
unfolding looping
none_arrives = refl

enough : rank engine (codes "older") hi_name (running.loops hi_name) ≤ turns hi_name turns_only
unfolding looping
enough = omega arith

course-done_example :
    ((course engine settings turns_only running).loops hi_name ≡ at_rest)
    × (results_for hi_name (course engine settings turns_only running).world.client.published
        ≡ results_for hi_name running.world.client.published
          ++ owed engine settings (codes "older") hi_name (running.loops hi_name))
course-done_example =
    course-done engine settings hi_name (codes "older") demo_lacks turns_only running serving
      turns_lack none_arrives enough

published :
    (course engine settings turns_only running).world.client.published
    ≡ (codes "demo.hi.res.ts.1", encode (codes "older")) ∷ []
unfolding looping
published = refl

hi_lacks : Lacks b'.' hi_name
hi_lacks = omega arith

id_lacks : Lacks b'.' (codes "1")
id_lacks = omega arith

turns_alone-call_subject_example :
    let outputs =
      (call_handle hi_name (to_request_like engine payload) (ok (echo (codes "older")))).outputs in
    (n : ℕ) × (w' : World) × (turns_alone engine settings hi_name n (
      record {
        waiting = (call_subject settings.project hi_name (codes "1"), payload) ∷ [];
        round = idle;
      },
      before,
    )
      ≡ (at_rest, w'))
    × (w'.client ≡ record before.client {
      published =
          before.client.published
          ++ map (λ out. (res_subject settings hi_name (codes "1"), out)) outputs;
    })
    × (get hi_name w'.modules ≡ some (echo (codes "older")))
turns_alone-call_subject_example =
    turns_alone-call_subject engine settings hi_name (codes "1") payload [] before (codes "older")
      {m = echo (codes "older")} demo_lacks hi_lacks id_lacks hi-IsCurrent refl
