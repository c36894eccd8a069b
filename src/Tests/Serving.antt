-- ===== src/Tests/Serving.antt =====
-- Messages, synchronous requests and what functions return, on the small runtime.
use litefunctions.Prelude.{
  ◌≡◌, ◌≢◌, ◌↔◌, refl, true, false, map, [], ◌∷◌, ◌++◌, none, some, arith, if◌then◌else◌,
}
use litefunctions.Prelude.Exec.{Result, ok, err}
use litefunctions.Text.{Text, codes, text_eq, includes, decimal}
use litefunctions.Text.Split.{Lacks}
use litefunctions.Text.Utf8.{Bytes, encode}
use litefunctions.JsMap.{get}
use litefunctions.Fs.{file, file_exists, find_node, path_eq, read_file}
use litefunctions.Value.{
  stringify, View, view_bytes, json, arr, str, num, cons, nil, bool, null, item, none_left, opaque,
  throws, bytes, Value, finished, failed,
}
use litefunctions.Value.Emit.{as_bytes, emit_items, emit}
use litefunctions.Value.Emit.Laws.{item_bytes, append_items, emit_items_cut, emit-bytes}
use litefunctions.World.{World, Engine, RequestLike}
use litefunctions.Functions.Files.{sync_repo_and_reload}
use litefunctions.Functions.Repo.{git_in, command_failed, repo_path}
use litefunctions.Functions.Modules.{function_path, imported, load_module}
use litefunctions.Functions.Modules.Fresh.{IsCurrent}
use litefunctions.Functions.Modules.Keeps.{IsKept}
use litefunctions.Consumer.{request_id, receive, refresh}
use litefunctions.Consumer.Failures.{refresh-failed}
use litefunctions.Consumer.Refresh.{IsQuiet}
use litefunctions.Main.{
  Request, Response, and_then, requested_name, text_response, error_response, answer,
  handle_sync_request,
}
use litefunctions.Main.Answers.{
  IsStatus, handle_sync_request-answers, handle_sync_request-missing, handle_sync_request-array,
  handle_sync_request-throws, handle_sync_request-reads_json,
}
use litefunctions.Main.Runs
use litefunctions.Tests.Fixtures.{echo, engine, settings, server, root, hi, disk}

serving : Unit {0}
unfolding handle_sync_request sync_repo_and_reload receive as_bytes emit get imported file_exists
    read_file find_node path_eq text_eq request_id requested_name
serving = tt

abbrev before : World
before = Runs.start ((root ++ codes "hi.ts" ∷ [], file hi) ∷ disk)

-- A payload that is a window on a buffer.
abbrev payload : View
payload = record { buffer = codes "xabcx"; byte_offset = 1; byte_length = 3 }

demo_lacks : Lacks b'.' settings.project
demo_lacks = omega arith

hi_lacks : Lacks b'.' (codes "hi")
hi_lacks = omega arith

id_lacks : Lacks b'.' (codes "7f")
id_lacks = omega arith

published :
    (receive engine settings
      (codes "hi")
      (codes "demo.hi.exec.ts.7f")
      payload
      before).client.published
    ≡ (codes "demo.hi.res.ts.7f", encode hi) ∷ []
unfolding serving
published = refl

abbrev ask : Text → Request
ask name = record { function_name = some name; body = some (ok (codes "{}")); body_used = false }

handle_sync_request-answers_example :
    (r : Response) × ((handle_sync_request engine server settings (ask (codes "hi")) before).0
      ≡ ok r)
    × IsStatus r.status
    × ((r.status ≡ 400) ↔ (requested_name settings (ask (codes "hi")) ≡ []))
    × IsKept before (handle_sync_request engine server settings (ask (codes "hi")) before).1
handle_sync_request-answers_example =
    handle_sync_request-answers engine server settings (ask (codes "hi")) before {raw = codes "{}"}
      refl

names_hi : requested_name settings (ask (codes "hi")) ≡ codes "hi"
unfolding serving
names_hi = refl

names_gone : requested_name settings (ask (codes "gone")) ≡ codes "gone"
unfolding serving
names_gone = refl

hi_given : codes "hi" ≢ []
hi_given = ground arith

gone_given : codes "gone" ≢ []
gone_given = ground arith

gone_absent : get (codes "gone") before.modules ≡ none
unfolding serving
gone_absent = refl

gone_missing : file_exists (function_path engine (codes "gone")) before.fs ≡ false
unfolding serving function_path
gone_missing = refl

handle_sync_request-missing_example :
    (handle_sync_request engine server settings (ask (codes "gone")) before).0
    ≡ ok (text_response 404 (codes "function '" ++ (codes "gone" ++ codes "' not found")))
handle_sync_request-missing_example =
    handle_sync_request-missing engine server settings (ask (codes "gone")) before (codes "gone")
      {raw = codes "{}"} refl names_gone gone_given gone_absent gone_missing

-- The engine whose functions run `handle`.
abbrev running : (RequestLike → Result Value) → Engine
running handle = record engine { evaluate = λ b. ok (record { handle = some handle }) }

running-IsCurrent :
    (handle : RequestLike → Result Value) → IsCurrent (running handle) (codes "hi") hi before
unfolding serving function_path
running-IsCurrent handle = record { content = refl; cached = λ m hit. cc; registered = λ r hit. cc }

abbrev fails_row : RequestLike → Result Value
fails_row req = err (codes "Error: row not found")

handle_sync_request-throws_example :
    (handle_sync_request (running fails_row) server settings (ask (codes "hi")) before).0
    ≡ ok (
        if includes (codes "not found") (codes "Error: row not found")
        then text_response 404 (codes "function '" ++ (codes "hi" ++ codes "' not found"))
        else text_response 500 (codes "Error: row not found"))
handle_sync_request-throws_example =
    handle_sync_request-throws (running fails_row) server settings (ask (codes "hi")) before
      (codes "hi") hi (record { handle = some fails_row }) fails_row {raw = codes "{}"} refl
      names_hi hi_given (running-IsCurrent fails_row) refl refl (codes "Error: row not found") refl

abbrev two_items : RequestLike → Result Value
two_items req = ok (json (arr (cons (str (codes "a")) (cons (str (codes "b")) nil))))

handle_sync_request-array_example :
    (x : Bytes) × (as_bytes (json (str (codes "a"))) ≡ ok x)
    × ((handle_sync_request (running two_items) server settings (ask (codes "hi")) before).0
        ≡ ok (answer (codes "hi") (ok x)))
handle_sync_request-array_example =
    handle_sync_request-array (running two_items) server settings (ask (codes "hi")) before
      (codes "hi") hi (record { handle = some two_items }) two_items {raw = codes "{}"} refl
      names_hi hi_given (running-IsCurrent two_items) refl refl (str (codes "a"))
      (cons (str (codes "b")) nil) refl

abbrev gives_body : RequestLike → Result Value
gives_body req = and_then (λ j. ok (json j)) req.json

gives_body_fails : (r : RequestLike) (x : Text) → r.json ≡ err x → gives_body r ≡ err x
gives_body_fails r x h = rw h refl

handle_sync_request-reads_json_example :
    (handle_sync_request (running gives_body) server settings (ask (codes "hi")) before).0
    ≡ ok (error_response (codes "hi") server.body_used_error)
handle_sync_request-reads_json_example =
    handle_sync_request-reads_json (running gives_body) server settings (ask (codes "hi")) before
      (codes "hi") hi (record { handle = some gives_body }) gives_body {raw = codes "{}"} refl
      names_hi hi_given (running-IsCurrent gives_body) refl refl {sent = ok (codes "{}")} refl
      gives_body_fails

-- The same engine where every program that is run ends with code 1.
abbrev git_fails : Engine
git_fails = record engine {
  spawn = λ cmd fs. (ok (record { code = 1; stdout = []; stderr = codes "no net" }), fs);
}

abbrev loaded_world : World
loaded_world = record before { modules = (codes "hi", echo hi) ∷ [] }

sync_fails :
    (sync_repo_and_reload git_fails settings loaded_world).0
    ≡ err (
        command_failed
          (git_in (repo_path settings) (codes "fetch" ∷ codes "--all" ∷ codes "--prune" ∷ []))
          (record { code = 1; stdout = []; stderr = codes "no net" }))
unfolding serving
sync_fails = refl

hi_loaded : get (codes "hi") loaded_world.modules ≡ some (echo hi)
unfolding serving
hi_loaded = refl

refresh-failed_example :
    ((load_module git_fails (codes "hi") (refresh git_fails settings loaded_world)).0
      ≡ ok (echo hi))
    × IsQuiet loaded_world (refresh git_fails settings loaded_world)
refresh-failed_example =
    refresh-failed git_fails settings loaded_world (codes "hi") {m = echo hi} sync_fails hi_loaded

two_encoded :
    item_bytes (item (json (num (codes "1"))) (item (json (bool true)) none_left))
    ≡ ok (codes "1" ∷ codes "true" ∷ [])
unfolding item_bytes stringify serving
two_encoded = refl

big_int : as_bytes (opaque (throws (codes "TypeError: BigInt"))) ≡ err (codes "TypeError: BigInt")
unfolding serving
big_int = refl

emit_items_cut_example :
    emit_items
      (append_items
        (item (json (num (codes "1"))) (item (json (bool true)) none_left))
        (item (opaque (throws (codes "TypeError: BigInt"))) (item (json null) none_left)))
      finished
    ≡ record {
      outputs = codes "1" ∷ codes "true" ∷ [];
      ending = failed (codes "TypeError: BigInt");
    }
emit_items_cut_example =
    emit_items_cut (item (json (num (codes "1"))) (item (json (bool true)) none_left))
      (item (json null) none_left) (opaque (throws (codes "TypeError: BigInt"))) finished
      two_encoded big_int

emit-bytes_example :
    emit (bytes payload)
    ≡ record { outputs = map (λ b. encode (decimal b)) (view_bytes payload); ending = finished }
emit-bytes_example = emit-bytes payload
