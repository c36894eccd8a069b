-- ===== src/Tests/Deploying.antt =====
-- A deployment on the small runtime, from the hook's message to the answers.
use litefunctions.Prelude.{◌≡◌, ◌≢◌, refl, true, false, [], ◌∷◌, ◌++◌, map, arith, some}
use litefunctions.Prelude.Exec.{ok}
use litefunctions.Text.{codes, text_eq}
use litefunctions.JsMap.{has}
use litefunctions.Fs.{Fs, file, folder, find_node, stat, parent, path_eq}
use litefunctions.Value.{json, str}
use litefunctions.World.{World, exec, hook}
use litefunctions.Functions.Repo.{runtime_functions_path, repo_functions_path, sync_repo}
use litefunctions.Functions.Files.{ensure_runtime_dir, sync_repo_and_reload, list_functions}
use litefunctions.Functions.Files.Mirror.{IsMade}
use litefunctions.Functions.Files.Names.{IsFunctionName}
use litefunctions.Functions.Files.Plain.{IsPlain}
use litefunctions.Functions.Modules.{emit_result}
use litefunctions.Consumer.{hook_subject, res_subject, receive, reconcile_consumers, watch_ts_hook}
use litefunctions.Consumer.Messages.{call_subject}
use litefunctions.Consumer.Delivery.{deliver}
use litefunctions.State.{app_state_new}
use litefunctions.Main.{Request, first_of, answer, requested_name, handle_sync_request, main}
use litefunctions.Main.Runs.{start, done}
use litefunctions.Main.Serves.{
  Work, idle, work_message, work_request, deliver-deployed, handle_sync_request-deployed,
}
use litefunctions.Tests.Fixtures.{
  echo, engine, settings, server, broker, disk, hi, root, source, plain_check, plain_check_sound,
}
use litefunctions.Tests.Delivering.{matches, rule, demo-IsProject, id-IsPart, payload}

deploying : Unit {0}
unfolding main app_state_new ensure_runtime_dir sync_repo_and_reload reconcile_consumers
    list_functions watch_ts_hook text_eq path_eq find_node parent plain_check requested_name
deploying = tt

-- The files after the start.
abbrev disk_up : Fs
disk_up =
    (codes "app" ∷ [], folder)
    ∷ ([], folder)
    ∷ (root, folder)
    ∷ (codes "tmp" ∷ [], folder)
    ∷ (codes "tmp" ∷ codes "demo" ∷ [], folder)
    ∷ (codes "tmp" ∷ codes "demo" ∷ codes "functions" ∷ [], folder)
    ∷ (source, folder)
    ∷ (source ++ codes "hi.ts" ∷ [], file hi)
    ∷ (source ++ codes "README.md" ∷ [], file (codes "x"))
    ∷ (root ++ codes "hi.ts" ∷ [], file hi)
    ∷ []

-- The world after the start.
abbrev up : World
up = record {
  fs = disk_up;
  modules = [];
  module_version = 2;
  imports = [];
  client = record {
    open_subs =
        record { sid = 0; subject = codes "demo.hi.exec.ts.*"; task = exec (codes "hi") }
        ∷ record { sid = 1; subject = codes "demo.hook.ts"; task = hook }
        ∷ [];
    next_sid = 2;
    published = [];
  };
  consumers = (codes "hi", 0) ∷ [];
}

boots : main engine server broker settings (start disk) ≡ (ok tt, up)
unfolding deploying
boots = refl

pulled : sync_repo engine settings up ≡ (ok tt, up)
unfolding deploying
pulled = refl

apart : repo_functions_path settings ≢ runtime_functions_path engine
unfolding deploying
apart = ground arith

outside : parent (repo_functions_path settings) ≢ runtime_functions_path engine
unfolding deploying
outside = ground arith

made : IsMade (runtime_functions_path engine) up.fs
unfolding deploying
made = refl

plain : IsPlain (runtime_functions_path engine) up.fs
unfolding deploying
plain = plain_check_sound (runtime_functions_path engine) up.fs refl

files : IsPlain (repo_functions_path settings) up.fs
unfolding deploying
files = plain_check_sound (repo_functions_path settings) up.fs refl

is_folder : stat (repo_functions_path settings) up.fs ≡ some folder
unfolding deploying
is_folder = refl

hi-IsFunctionName : IsFunctionName (codes "hi")
hi-IsFunctionName = (ground arith, (refl, (refl, tt)))

brought :
    find_node (repo_functions_path settings ++ (codes "hi" ++ codes ".ts") ∷ []) up.fs
    ≡ some (file hi)
unfolding deploying
brought = refl

-- The world after the hook's message.
abbrev after_hook : World
after_hook = deliver matches engine settings (hook_subject settings) payload up

abbrev ask : Request
ask = record { function_name = some (codes "hi"); body = some (ok (codes "{}")); body_used = false }

asks_hi : requested_name settings ask ≡ codes "hi"
unfolding deploying
asks_hi = refl

-- The world after a message and a request behind it.
abbrev busy : World
busy =
    (handle_sync_request engine server settings ask
      (receive engine settings (codes "hi") (codes "demo.hi.exec.ts.1") payload after_hook)).1

works : Work engine server settings after_hook busy
works =
    work_request (work_message (idle after_hook) (codes "hi") (codes "demo.hi.exec.ts.1") payload)
      ask

deliver-deployed_example :
    let after =
      deliver matches engine settings
        (call_subject settings.project (codes "hi") (codes "7f"))
        payload
        busy in
    (has (codes "hi") busy.consumers ≡ true)
    × (after.client ≡ record busy.client {
      published =
          busy.client.published
          ++ map
              (λ out. (res_subject settings (codes "hi") (codes "7f"), out))
              (emit_result (ok (json (str hi)))).outputs;
    })
deliver-deployed_example =
    deliver-deployed matches rule engine server broker settings demo-IsProject disk {w = up}
      {u = up} {w1 = up} {x = busy} boots (done up) pulled apart outside made plain files is_folder
      (codes "hi") hi (echo hi) (λ req. ok (json (str hi))) hi-IsFunctionName brought refl refl
      payload works (codes "7f") payload id-IsPart

handle_sync_request-deployed_example :
    (handle_sync_request engine server settings ask busy).0
    ≡ ok (
        answer (codes "hi") (
          first_of
            (emit_result (ok (json (str hi)))).outputs
            (emit_result (ok (json (str hi)))).ending))
handle_sync_request-deployed_example =
    handle_sync_request-deployed matches rule engine server broker settings demo-IsProject disk
      {w = up} {u = up} {w1 = up} {x = busy} boots (done up) pulled apart outside made plain files
      is_folder (codes "hi") hi (echo hi) (λ req. ok (json (str hi))) hi-IsFunctionName brought refl
      refl payload works ask {raw = codes "{}"} refl asks_hi
