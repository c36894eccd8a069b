-- ===== src/Tests/Delivering.antt =====
-- Messages that arrive at the small runtime.
use litefunctions.Prelude.{◌≡◌, refl, Bool, [], ◌∷◌, ◌++◌, map, if◌then◌else◌, arith}
use litefunctions.Text.{Text, codes, split, text_eq}
use litefunctions.Text.Utf8.{encode}
use litefunctions.JsMap.{has}
use litefunctions.Fs.{find_node, path_eq, read_file, file_exists}
use litefunctions.JsMap.{get}
use litefunctions.Value.{View}
use litefunctions.World.{World}
use litefunctions.Functions.Modules.{imported, invoke_module, to_request_like}
use litefunctions.Functions.Files.{ensure_runtime_dir, sync_repo_and_reload, list_functions}
use litefunctions.Consumer.{
  hook_subject, res_subject, request_id, receive, refresh, reconcile_consumers, watch_ts_hook,
}
use litefunctions.Consumer.Messages.{call_subject}
use litefunctions.Consumer.Subjects.{IsSubjectRule, IsProject, IsPart, tokens_match}
use litefunctions.Consumer.Delivery.{deliver}
use litefunctions.State.{app_state_new}
use litefunctions.Main.{main}
use litefunctions.Main.Runs.{done, next, hook_message}
use litefunctions.Main.Delivers.{deliver-call_subject, deliver-hook_subject}
use litefunctions.Tests.Fixtures.{engine, settings, server, broker, disk, hi}
use litefunctions.Tests.Starting.{up, boots}

-- A message server that matches token by token.
abbrev pub matches : Text → Text → Bool
matches pattern subject = tokens_match (split b'.' pattern) (split b'.' subject)

pub rule : IsSubjectRule matches
rule = record { by_tokens = λ pattern subject p q. refl }

pub demo-IsProject : IsProject settings.project
demo-IsProject = ((ground arith, ground arith), omega arith)

hi-IsPart : IsPart (codes "hi")
hi-IsPart = (ground arith, omega arith)

pub id-IsPart : IsPart (codes "7f")
id-IsPart = (ground arith, omega arith)

abbrev pub payload : View
payload = record { buffer = codes "xabcx"; byte_offset = 1; byte_length = 3 }

-- The world after the start and a refresh.
abbrev later : World
later = refresh engine settings up

deliver-call_subject_example :
    let after =
      deliver matches engine settings
        (call_subject settings.project (codes "hi") (codes "7f"))
        payload
        later in
    let outputs =
      (invoke_module engine (codes "hi") (to_request_like engine payload) later).0.outputs in
    (after.client ≡ record later.client {
      published =
          later.client.published
          ++ (if has (codes "hi") later.consumers
              then map (λ out. (res_subject settings (codes "hi") (codes "7f"), out)) outputs
              else []);
    })
    × (after.consumers ≡ later.consumers)
deliver-call_subject_example =
    deliver-call_subject matches rule engine server broker settings demo-IsProject disk {w = up}
      {u = later} boots (next (done up) (hook_message up)) (codes "hi") (codes "7f") payload
      hi-IsPart id-IsPart

deliver-hook_subject_example :
    deliver matches engine settings (hook_subject settings) payload later
    ≡ refresh engine settings later
deliver-hook_subject_example =
    deliver-hook_subject matches rule engine server broker settings demo-IsProject disk {w = up}
      {u = later} boots (next (done up) (hook_message up)) payload

-- The one function of the repository answers its call.
published :
    (deliver matches engine settings (codes "demo.hi.exec.ts.7f") payload up).client.published
    ≡ (codes "demo.hi.res.ts.7f", encode hi) ∷ []
unfolding main app_state_new ensure_runtime_dir sync_repo_and_reload reconcile_consumers
    list_functions watch_ts_hook receive has text_eq deliver get imported file_exists read_file
    find_node path_eq request_id split
published = refl
