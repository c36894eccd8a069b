-- ===== src/Tests/Syncing.antt =====
-- A sync of the files among the loops on the small runtime.
use litefunctions.Prelude.{◌≡◌, refl, true, false, List, [], ◌∷◌, ◌++◌, none, some, arith, All}
use litefunctions.Prelude.Exec.{ok}
use litefunctions.Text.{codes, text_eq}
use litefunctions.Text.Split.{Lacks}
use litefunctions.Text.Utf8.{encode}
use litefunctions.JsMap.{get}
use litefunctions.Fs.{file, find_node, parent, path_eq, read_file, file_exists}
use litefunctions.Value.Emit.{emit}
use litefunctions.Functions.Repo.{repo_functions_path}
use litefunctions.Functions.Files.{replace_files}
use litefunctions.Functions.Files.Mirror.{IsMade}
use litefunctions.Functions.Files.Segments.{making, removing, clearing, segment}
use litefunctions.Functions.Modules.{imported}
use litefunctions.Consumer.{receive}
use litefunctions.Consumer.Loops.{Running, arrive, run_on}
use litefunctions.Consumer.Loops.Turns.{all_results, owed}
use litefunctions.Consumer.Loops.Results.{results_for, arrived, name_of}
use litefunctions.Consumer.Loops.Reloading.{Deploying, Move, other, sync_on, move, moves, IsSound}
use litefunctions.Consumer.Loops.Reloaded.{is_unread}
use litefunctions.Consumer.Loops.Refreshing.{Refreshing, refresh_moves}
use litefunctions.Consumer.Loops.Behind.{heard, reloaded-results}
use litefunctions.Consumer.Stages.{seeking, ended}
use litefunctions.Main.{Request, requested_name, handle_sync_request, text_response}
use litefunctions.Main.Window.{removing-missing}
use litefunctions.Tests.Fixtures.{engine, settings, server, hi}
use litefunctions.Tests.Loading.{before, from, into, apart, outside, hi-IsFunctionName}
use litefunctions.Tests.Looping.{running, payload, call, hi_name, old_name, demo_lacks}

syncing : Unit {0}
unfolding moves move refresh_moves heard text_eq get imported file_exists read_file find_node
    path_eq results_for requested_name replace_files parent emit repo_functions_path
syncing = tt

-- A call of each function waits, and the sync begins.
abbrev deploying : Deploying
deploying = record { running = running; phase = making }

-- The loop of `hi` takes its call and loads the older code while the files are replaced.
abbrev among : List Move
among =
    sync_on
    ∷ other (run_on hi_name)
    ∷ other (run_on hi_name)
    ∷ sync_on
    ∷ other (run_on hi_name)
    ∷ sync_on
    ∷ other (run_on hi_name)
    ∷ other (run_on hi_name)
    ∷ sync_on
    ∷ sync_on
    ∷ other (run_on old_name)
    ∷ sync_on
    ∷ sync_on
    ∷ sync_on
    ∷ sync_on
    ∷ sync_on
    ∷ []

here : (moves engine settings from among deploying).phase ≡ clearing 1
unfolding syncing
here = refl

sound : IsSound running
sound = record { bounded = tt; below = λ k. tt }

made : IsMade into running.world.fs
unfolding syncing
made = refl

there : file_exists from running.world.fs ≡ true
unfolding syncing
there = refl

brought : find_node (from ++ (hi_name ++ codes ".ts") ∷ []) running.world.fs ≡ some (file hi)
unfolding syncing
brought = refl

unread : is_unread ((moves engine settings from among deploying).running.loops hi_name).round ≡ true
unfolding syncing
unread = refl

-- Behind the clearing another call of `hi` arrives, and the loops and the refresh run on.
abbrev behind : List Move
behind =
    other (arrive hi_name (call hi_name (codes "2")) payload)
    ∷ sync_on
    ∷ other (run_on hi_name)
    ∷ other (run_on old_name)
    ∷ sync_on
    ∷ other (run_on hi_name)
    ∷ other (run_on hi_name)
    ∷ sync_on
    ∷ other (run_on hi_name)
    ∷ other (run_on hi_name)
    ∷ other (run_on hi_name)
    ∷ sync_on
    ∷ other (run_on hi_name)
    ∷ other (run_on hi_name)
    ∷ other (run_on hi_name)
    ∷ sync_on
    ∷ []

names_lack : All (λ a. Lacks b'.' (name_of a)) (heard behind)
unfolding syncing
names_lack = omega arith

abbrev live : Running
live = (move engine settings from sync_on (moves engine settings from among deploying)).running

abbrev after : Refreshing
after = refresh_moves engine settings behind (record { running = live; stage = seeking })

-- The older code's result, then the newer one's.
published :
    after.running.world.client.published
    ≡ (codes "demo.hi.res.ts.1", encode (codes "older"))
      ∷ (codes "demo.hi.res.ts.2", encode hi)
      ∷ []
unfolding syncing
published = refl

at_end : after.stage ≡ ended (ok tt)
unfolding syncing
at_end = refl

reloaded-results_example :
    results_for hi_name after.running.world.client.published
      ++ owed engine settings hi hi_name (after.running.loops hi_name)
    ≡ (results_for hi_name live.world.client.published
        ++ owed engine settings hi hi_name (live.loops hi_name))
      ++ all_results engine settings hi hi_name (arrived hi_name (heard behind))
reloaded-results_example =
    reloaded-results engine settings from among deploying sound refl here apart outside made hi_name
      hi demo_lacks behind hi-IsFunctionName there brought unread names_lack

held : find_node (into ++ (hi_name ++ codes ".ts") ∷ []) before.fs ≡ some (file (codes "older"))
unfolding syncing
held = refl

abbrev ask : Request
ask = record { function_name = some hi_name; body = some (ok (codes "{}")); body_used = false }

names_hi : requested_name settings ask ≡ hi_name
unfolding syncing
names_hi = refl

not_loaded : get hi_name before.modules ≡ none
unfolding syncing
not_loaded = refl

removing-missing_example :
    let after = (segment engine from (removing (codes "hi.ts" ∷ codes "old.ts" ∷ [])) before).1 in
    ((handle_sync_request engine server settings ask after).0
      ≡ ok (text_response 404 (codes "function '" ++ (hi_name ++ codes "' not found"))))
    × ((receive engine settings hi_name (call hi_name (codes "1")) payload after).client.published
        ≡ before.client.published)
    × (find_node (from ++ codes "hi.ts" ∷ []) after.fs ≡ some (file hi))
removing-missing_example =
    removing-missing engine from hi_name (codes "old.ts" ∷ []) before hi-IsFunctionName
      {b = codes "older"} held server settings ask (call hi_name (codes "1")) payload
      {raw = codes "{}"} {new = hi} refl names_hi not_loaded apart brought
