-- ===== src/Consumer.antt =====
-- runtimes/ts/pkg/consumer.ts: the subscriptions of the functions, and the hook that refreshes them.
pub mod Consistent
pub mod Reconcile
pub mod Messages
pub mod Subjects
pub mod Hooks
pub mod Code
pub mod Delivery
pub mod Refresh
pub mod Deploy
pub mod Failures
pub mod Frames
pub mod Stages
pub mod Loops
use litefunctions.Prelude.{
  ℕ, zero, suc, ◌+◌, Bool, true, false, List, [], ◌∷◌, ◌++◌, if◌then◌else◌, ◌==◌, Option, none,
  some, get_elem?,
}
use litefunctions.Prelude.Exec.{
  Result, ok, err, Exec, pure, throw, lift, gets, modify, ◌>>=◌, ◌>>◌, continue, attempt,
}
use litefunctions.Text.{Text, codes, split}
use litefunctions.Text.Utf8.{Bytes}
use litefunctions.JsMap.{JsMap, get, has, set, delete, member, set_of}
use litefunctions.Conf.{Settings}
use litefunctions.Value.{View}
use litefunctions.Value.Emit.{Emission}
use litefunctions.World.{World, Engine, Client, Task, exec, hook, subscribe, unsubscribe, publish}
use litefunctions.Functions.Files.{list_functions, sync_repo_and_reload}
use litefunctions.Functions.Modules.{invoke_module, to_request_like}

-- `${settings.project}.${name}.exec.ts.*`
abbrev pub exec_subject : Settings → Text → Text
exec_subject s name = s.project ++ (codes "." ++ (name ++ codes ".exec.ts.*"))

-- `${settings.project}.hook.ts`
abbrev pub hook_subject : Settings → Text
hook_subject s = s.project ++ codes ".hook.ts"

-- `${settings.project}.${name}.res.ts.${reqID}`
abbrev pub res_subject : Settings → Text → Text → Text
res_subject s name req_id = s.project ++ (codes "." ++ (name ++ (codes ".res.ts." ++ req_id)))

-- `consumeFunction`: the loop of the new subscription is `receive` below.
unfoldable pub consume_function : Settings → Text → World → World
unfolding subscribe set
consume_function s name w =
    let (sid, client) = subscribe (exec_subject s name) (exec name) w.client in
    record w { client = client; consumers = set name sid w.consumers }

-- `consumer.cancel(); CONSUMERS.delete(name)`
unfoldable pub stop_consumer : Text → ℕ → World → World
unfolding unsubscribe delete
stop_consumer name sid w = record w {
  client = unsubscribe sid w.client;
  consumers = delete name w.consumers;
}

-- The first loop of `reconcileConsumers`. Deleting the entry that a `Map` iteration stands at does
-- not disturb it, so the loop goes over the entries as they were.
unfoldable pub stop_stale : JsMap ℕ → List Text → World → World
unfolding stop_consumer member
stop_stale [] desired w = w
stop_stale ((name, sid) ∷ entries) desired w =
    stop_stale entries desired (if member name desired then w else stop_consumer name sid w)

-- The second loop of `reconcileConsumers`.
unfoldable pub start_missing : Settings → List Text → World → World
unfolding consume_function has
start_missing s [] w = w
start_missing s (name ∷ names) w =
    start_missing s names (if has name w.consumers then w else consume_function s name w)

-- `reconcileConsumers`
unfoldable pub reconcile_consumers : Engine → Settings → Exec World (Unit {0})
unfolding list_functions stop_stale start_missing set_of
reconcile_consumers e s = do
  names ← list_functions e
  let desired = set_of names
  modify (λ w. stop_stale w.consumers desired w)
  modify (start_missing s desired)

abbrev pub or_empty : Option Text → Text
or_empty none = []
or_empty (some t) = t

-- `msg.subject.split(".")[4] ?? ""`
unfoldable pub request_id : Text → Text
unfolding split
request_id subject = or_empty (get_elem? (split b'.' subject) 4)

unfoldable pub publish_all : Text → List Bytes → Client → Client
unfolding publish
publish_all subject [] c = c
publish_all subject (out ∷ outs) c = publish_all subject outs (publish subject out c)

-- One round of the loop in `consumeFunction`: what was yielded is published, and an error ends
-- the round with a line in the log.
unfoldable pub receive : Engine → Settings → Text → Text → View → World → World
unfolding request_id publish_all invoke_module to_request_like
receive e s name subject payload w =
    let (out, w') = invoke_module e name (to_request_like e payload) w in
    record w' {
      client = publish_all (res_subject s name (request_id subject)) out.outputs w'.client;
    }

-- `watchTSHook`: the loop of the subscription is `refresh` below.
unfoldable pub watch_ts_hook : Settings → World → World
unfolding subscribe
watch_ts_hook s w = record w { client = (subscribe (hook_subject s) hook w.client).1 }

-- One round of the loop in `watchTSHook`: an error is logged, and what was done stays.
unfoldable pub refresh : Engine → Settings → World → World
unfolding sync_repo_and_reload reconcile_consumers
refresh e s w = ((sync_repo_and_reload e s >> reconcile_consumers e s) w).1
