-- ===== src/Main/Serves.antt =====
-- From the hook's message to the answers: which code the running process (runtimes/ts/main.ts,
-- runtimes/ts/pkg/consumer.ts) runs after a deployment.
use litefunctions.Prelude.{
  Bool, ◌≡◌, ◌≢◌, refl, sym, ap, ◌∙◌, subst, true, [], ◌∷◌, ◌++◌, map, arith, some, inl, inr,
}
use litefunctions.Prelude.Exec.{Result, ok, Result-cases}
use litefunctions.Text.{Text, codes, is_some}
use litefunctions.Text.Utf8.{Bytes}
use litefunctions.JsMap.{has}
use litefunctions.Conf.{Settings}
use litefunctions.Fs.{Fs, file, folder, stat, parent, find_node, file_exists}
use litefunctions.Value.{Value, View}
use litefunctions.World.{World, Engine, LoadedModule, RequestLike}
use litefunctions.Functions.Repo.{repo_functions_path, runtime_functions_path, sync_repo}
use litefunctions.Functions.Files.Names.{IsFunctionName, is_stem_iff}
use litefunctions.Functions.Files.Mirror.{IsMade}
use litefunctions.Functions.Files.Plain.{IsPlain}
use litefunctions.Functions.Modules.{emit_result, invoke_module, to_request_like}
use litefunctions.Functions.Modules.Fresh.{
  IsBounded, IsCurrent, load_module-IsCurrent, load_module-current,
}
use litefunctions.Functions.Modules.Reload.{sync-returns, sync-IsCurrent}
use litefunctions.Consumer.{hook_subject, res_subject, receive, refresh, reconcile_consumers}
use litefunctions.Consumer.Code.{code_of-reconcile_consumers, IsCurrent-code_of, receive-IsCurrent}
use litefunctions.Consumer.Deploy.{reload_steps, refresh_steps, refresh-deploys}
use litefunctions.Consumer.Messages.{call_subject}
use litefunctions.Consumer.Subjects.{IsSubjectRule, IsProject, IsPart, word-Lacks_dot}
use litefunctions.Consumer.Delivery.{deliver}
use litefunctions.Main.{
  Request, Server, readable, read, as_request_like, requested_name, first_of, answer, answer_named,
  handle_sync_request, main,
}
use litefunctions.State.{Broker}
use litefunctions.Main.Answers.{handle_sync_request_deployed}
use litefunctions.Main.Bounded.{main-IsBounded, sync_repo-IsBounded}
use litefunctions.Main.Delivers.{deliver-call_subject, deliver-hook_subject}
use litefunctions.Main.Runs.{
  start, Steps, next, message, hook_message, request, main-Steps, receive-IsQuiet,
  answer_named-IsQuiet,
}

module _ (e : Engine) (v : Server) (s : Settings) where
  -- Messages to functions and synchronous requests, without a refresh in between.
  pub data Work : World → World → Type 0 where
    idle : (w : World) → Work w w
    work_message :
        {w u : World}
        → Work w u
        → (name subject : Text) (payload : View) → Work w (receive e s name subject payload u)
    work_request :
        {w u : World} → Work w u → (req : Request) → Work w (handle_sync_request e v s req u).1

answer_named-IsCurrent :
    (e : Engine) (v : Server) (req : Request) (n : Text) (name : Text) (b : Bytes) (w : World)
    → IsCurrent e name b w
    → IsCurrent e name b (answer_named e v req n w).1
unfolding answer_named invoke_module
answer_named-IsCurrent e v req [] name b w c = c
answer_named-IsCurrent e v req (k ∷ n) name b w c = elim (Result-cases (readable v req)) [
  | inl (raw, good) ↦ rw (answer_named, good) (load_module-IsCurrent e (k ∷ n) name b w c)
  | inr (x, bad) ↦ rw (answer_named, bad) c
]

module _ (e : Engine) (v : Server) (s : Settings) where
  Work-IsCurrent :
      (name : Text) (b : Bytes) {w u : World}
      → Work e v s w u
      → IsCurrent e name b w
      → IsCurrent e name b u
  unfolding handle_sync_request
  Work-IsCurrent name b (idle w) c = c
  Work-IsCurrent name b (work_message {u = u} work n subject payload) c =
      receive-IsCurrent e s n subject payload name b u (Work-IsCurrent name b work c)
  Work-IsCurrent name b (work_request {u = u} work req) c =
      answer_named-IsCurrent e v req (requested_name s req) name b u (Work-IsCurrent name b work c)

  consumers-Work : {w u : World} → Work e v s w u → u.consumers ≡ w.consumers
  unfolding handle_sync_request
  consumers-Work (idle w) = refl
  consumers-Work (work_message {u = u} work n subject payload) =
      (receive-IsQuiet e s n subject payload u).consumers ∙ consumers-Work work
  consumers-Work (work_request {u = u} work req) =
      (answer_named-IsQuiet e v req (requested_name s req) u).consumers ∙ consumers-Work work

  Steps-Work : {w u x : World} → Steps e v s w u → Work e v s u x → Steps e v s w x
  Steps-Work steps (idle u) = steps
  Steps-Work steps (work_message {u = u} work n subject payload) =
      next (Steps-Work steps work) (message n subject payload u)
  Steps-Work steps (work_request {u = u} work req) = next (Steps-Work steps work) (request req u)

-- After a refresh that git made possible, a name of the repository stands for the repository's code.
pub refresh-IsCurrent :
    (e : Engine) (s : Settings) (w : World) (name : Text) (b : Bytes) {w1 : World}
    → sync_repo e s w ≡ (ok tt, w1)
    → repo_functions_path s ≢ runtime_functions_path e
    → parent (repo_functions_path s) ≢ runtime_functions_path e
    → IsMade (runtime_functions_path e) w1.fs
    → IsPlain (runtime_functions_path e) w1.fs
    → IsPlain (repo_functions_path s) w1.fs
    → stat (repo_functions_path s) w1.fs ≡ some folder
    → IsBounded w1
    → IsFunctionName name
    → find_node (repo_functions_path s ++ (name ++ codes ".ts") ∷ []) w1.fs ≡ some (file b)
    → IsCurrent e name b (refresh e s w)
unfolding file_exists
refresh-IsCurrent e s w name b {w1} pulled apart outside made plain files is_folder bound f
      content =
    let (n, w2, copied, _) =
      sync-returns e (repo_functions_path s) w1 apart outside made plain files is_folder in
    let reloaded = reload_steps e s w {w1 = w1} {w2 = w2} {n = n} pulled copied in
    let c2 =
      sync-IsCurrent e (repo_functions_path s) name b w1 {n = n} {w' = w2} apart outside made bound
        f (ground (arith, is_folder)) content copied in
    subst (IsCurrent e name b) (sym (refresh_steps e s w {w2 = w2} {n = n} reloaded)) (
      IsCurrent-code_of e name b w2 (reconcile_consumers e s w2).1
        (code_of-reconcile_consumers e s w2) c2)

module _ (matches : Text → Text → Bool) (rule : IsSubjectRule matches) (e : Engine) (v : Server)
    (broker : Broker) (s : Settings) (project : IsProject s.project) (fs : Fs) {w u w1 x : World}
    (started : main e v broker s (start fs) ≡ (ok tt, w)) (steps : Steps e v s w u)
    (pulled : sync_repo e s u ≡ (ok tt, w1))
    (apart : repo_functions_path s ≢ runtime_functions_path e)
    (outside : parent (repo_functions_path s) ≢ runtime_functions_path e)
    (made : IsMade (runtime_functions_path e) w1.fs)
    (plain : IsPlain (runtime_functions_path e) w1.fs)
    (files : IsPlain (repo_functions_path s) w1.fs)
    (is_folder : stat (repo_functions_path s) w1.fs ≡ some folder) (name : Text) (b : Bytes)
    (m : LoadedModule) (handle : RequestLike → Result Value) (f : IsFunctionName name)
    (content : find_node (repo_functions_path s ++ (name ++ codes ".ts") ∷ []) w1.fs
      ≡ some (file b))
    (code : e.evaluate b ≡ ok m) (exported : m.handle ≡ some handle) (hook_payload : View)
    (work : Work e v s (deliver matches e s (hook_subject s) hook_payload u) x) where
  bound : IsBounded w1
  bound =
      sync_repo-IsBounded e s u {r = ok tt} {w1 = w1}
        (main-IsBounded e v broker s fs {w = w} {u = u} started steps) pulled

  abbrev deployed : World
  deployed = refresh e s u

  refreshed : deliver matches e s (hook_subject s) hook_payload u ≡ deployed
  refreshed =
      deliver-hook_subject matches rule e v broker s project fs {w = w} {u = u} started steps
        hook_payload

  after-Work : Work e v s deployed x
  after-Work = subst (λ y. Work e v s y x) refreshed work

  to_x : Steps e v s w x
  to_x = Steps-Work e v s (next steps (hook_message u)) after-Work

  current : IsCurrent e name b x
  current = Work-IsCurrent e v s name b after-Work (
      refresh-IsCurrent e s u name b {w1 = w1} pulled apart outside made plain files is_folder bound
        f content)

  has-consumer : has name x.consumers ≡ true
  unfolding is_some
  has-consumer =
      ap (has name) (consumers-Work e v s after-Work)
      ∙ (refresh-deploys e s u name {w1 = w1} pulled apart outside made plain files is_folder
          (main-Steps e v broker s fs {w = w} {u = u} started steps)).0
      ∙ rw ((is_stem_iff name).1 f, content) refl

  invokes : (req : RequestLike) → (invoke_module e name req x).0 ≡ emit_result (handle req)
  unfolding invoke_module
  invokes req = rw (load_module-current e name b x current, code, exported) refl

  -- Deployment, from the hook's message to the results. The process has started and done whatever
  -- steps, git brings the repository up to date, and the hook's message arrives; then messages and
  -- requests are served in any number and order, without another refresh. A function of the
  -- repository then has a consumer, and a call of it runs the repository's code: what its `handle`
  -- gives for the payload is published, all of it and in order, on the response subject of the call,
  -- and nothing else is published. The code evaluates to a module with a `handle`. The runtime's
  -- folder is made, the repository's is another one outside of it, and no function file's name is
  -- that of a folder in the two. The project and the id are not empty and hold no dot, the project is
  -- not `>`, and the message server matches subjects token by token.
  pub deliver-deployed :
      (req_id : Text) (payload : View)
      → IsPart req_id
      → let after = deliver matches e s (call_subject s.project name req_id) payload x in
        let outputs = (emit_result (handle (to_request_like e payload))).outputs in
        (has name x.consumers ≡ true)
        × (after.client ≡ record x.client {
          published = x.client.published ++ map (λ out. (res_subject s name req_id, out)) outputs;
        })
  deliver-deployed req_id payload r =
      let called =
        (deliver-call_subject matches rule e v broker s project fs {w = w} {u = x} started to_x name
          req_id payload (f.0, word-Lacks_dot name f.1) r).0 in
      (has-consumer, rw (has-consumer, invokes (to_request_like e payload)) at called)

  -- Deployment, from the hook's message to the answers of requests. The process has started and done
  -- whatever steps, git brings the repository up to date, and the hook's message arrives; then
  -- messages and requests are served in any number and order, without another refresh. A synchronous
  -- request for a function of the repository whose body arrives is then answered with the first
  -- output that the `handle` of the repository's code gives for it, or with its error. The code
  -- evaluates to a module with a `handle`. The runtime's folder is made, the repository's is another
  -- one outside of it, and no function file's name is that of a folder in the two. The project is not
  -- empty, is not `>` and holds no dot, and the message server matches subjects token by token.
  pub handle_sync_request-deployed :
      (req : Request) {raw : Bytes}
      → readable v req ≡ ok raw
      → requested_name s req ≡ name
      → let emission = emit_result (handle (as_request_like e v (read req))) in
        (handle_sync_request e v s req x).0
        ≡ ok (answer name (first_of emission.outputs emission.ending))
  handle_sync_request-deployed req {raw} got named =
      handle_sync_request_deployed e v s req x name b m handle {raw = raw} got named f.0 current
        code exported (handle (as_request_like e v (read req))) refl
