-- ===== src/Main.antt =====
-- runtimes/ts/main.ts: the answer to a synchronous request, and the start of the runtime.
pub mod Answers
pub mod Window
pub mod Runs
pub mod Starts
pub mod Refines
pub mod Delivers
pub mod Bounded
pub mod Serves
use litefunctions.Prelude.{
  ℕ, Bool, true, false, List, [], ◌∷◌, ◌++◌, if◌then◌else◌, Option, none, some,
}
use litefunctions.Prelude.Exec.{
  Result, ok, err, Exec, pure, throw, lift, gets, modify, attempt, ◌>>=◌, ◌>>◌, continue,
}
use litefunctions.Text.{Text, codes, includes}
use litefunctions.Text.Utf8.{Bytes, encode}
use litefunctions.Conf.{ℤ, Settings}
use litefunctions.Value.{Json, Ending, finished, failed}
use litefunctions.Value.Emit.{Emission}
use litefunctions.World.{World, Engine, RequestLike}
use litefunctions.Functions.Files.{ensure_runtime_dir, sync_repo_and_reload}
use litefunctions.Functions.Modules.{invoke_module}
use litefunctions.Consumer.{reconcile_consumers, watch_ts_hook}
use litefunctions.State.{Broker, app_state_new}

-- What `handleSyncRequest` and a user's `handle` read of a `Request`: the header
-- X-Litefunction-Name, the body, if there is one (`err` if its transfer fails), and `bodyUsed`.
pub record Request : Type 0 where
  pub function_name : Option Text
  pub body : Option (Result Bytes)
  pub body_used : Bool

-- `content_type` is the header that the code sets; `none` leaves it to `new Response(text)`.
pub record Response : Type 0 where
  pub status : ℕ
  pub content_type : Option Text
  pub body : Bytes

-- What the code takes from the server of `Bun.serve`: the error of reading a body twice, and what
-- comes of listening on a port.
pub record Server : Type 0 where
  pub body_used_error : Text
  pub listen : ℤ → Result (Unit {0})

abbrev pub body_bytes : Option (Result Bytes) → Result Bytes
body_bytes none = ok []
body_bytes (some r) = r

abbrev pub has_body : Option (Result Bytes) → Bool
has_body none = false
has_body (some r) = true

-- what `arrayBuffer`, and the other readers, find: a body can be read once
abbrev pub readable : Server → Request → Result Bytes
readable v req = if req.body_used then err v.body_used_error else body_bytes req.body

-- the request after a reader has run
abbrev pub read : Request → Request
read req = record req { body_used = if req.body_used then true else has_body req.body }

abbrev pub and_then {ℓ κ} : {A : Type ℓ} {B : Type κ} → (A → Result B) → Result A → Result B
and_then f (ok a) = f a
and_then f (err x) = err x

-- The `Request` itself, as the `RequestLike` that `handle` is called with.
unfoldable pub as_request_like : Engine → Server → Request → RequestLike
as_request_like e v req = record {
  json = and_then (λ b. e.parse_json (e.decode b)) (readable v req);
  text = and_then (λ b. ok (e.decode b)) (readable v req);
  bytes = readable v req;
  array_buffer = readable v req;
}

-- `req.headers.get("X-Litefunction-Name") || settings.name`: an empty text counts as missing.
unfoldable pub requested_name : Settings → Request → Text
requested_name s req = elim req.function_name [
  | some [] ↦ s.name
  | some (c ∷ n) ↦ c ∷ n
  | none ↦ s.name
]

-- `for await (const out of …) { first = out; break; }`, then `first ?? new Uint8Array()`
abbrev pub first_of : List Bytes → Ending → Result Bytes
first_of [] finished = ok []
first_of [] (failed x) = err x
first_of (out ∷ _) _ = ok out

unfoldable pub text_response : ℕ → Text → Response
text_response status t = record { status = status; content_type = none; body = encode t }

unfoldable pub error_response : Text → Text → Response
unfolding includes text_response
error_response name x =
    if includes (codes "not found") x
    then text_response 404 (codes "function '" ++ (name ++ codes "' not found"))
    else text_response 500 x

abbrev pub answer : Text → Result Bytes → Response
answer name (ok b) = record {
  status = 200;
  content_type = some (codes "application/json");
  body = b;
}
answer name (err x) = error_response name x

-- `handleSyncRequest` behind its first line; the world's part that it reads and changes is the cache
-- of modules.
unfoldable pub answer_named : Engine → Server → Request → Text → Exec World Response
unfolding as_request_like invoke_module error_response text_response
answer_named e v req [] = pure (text_response 400 (codes "function name not provided"))
answer_named e v req (c ∷ name) = do
  lift (readable v req)
  emission ← (λ w.
      let (m, w') = invoke_module e (c ∷ name) (as_request_like e v (read req)) w in (ok m, w'))
  pure (answer (c ∷ name) (first_of emission.outputs emission.ending))

-- `handleSyncRequest`
unfoldable pub handle_sync_request : Engine → Server → Settings → Request → Exec World Response
unfolding requested_name answer_named
handle_sync_request e v s req = answer_named e v req (requested_name s req)

-- `main`
unfoldable pub main : Engine → Server → Broker → Settings → Exec World (Unit {0})
main e v b s = do
  ensure_runtime_dir e
  app_state_new b s
  sync_repo_and_reload e s
  reconcile_consumers e s
  modify (watch_ts_hook s)
  lift (v.listen s.http_port)

-- `main().catch(…)`: `process.exit(1)`, or the process goes on.
abbrev pub exit_code : Result (Unit {0}) → Option ℕ
exit_code (ok _) = none
exit_code (err x) = some 1
