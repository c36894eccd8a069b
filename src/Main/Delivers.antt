-- ===== src/Main/Delivers.antt =====
-- The messages of the running process: from the start of `main` (runtimes/ts/main.ts) on, what a
-- call of a function and a message of the hook lead to (runtimes/ts/pkg/consumer.ts).
use litefunctions.Prelude.{
  Bool, ◌≡◌, refl, sym, ap, ◌∙◌, subst, true, List, [], ◌∷◌, ◌++◌, map, append-nil, if◌then◌else◌,
  arith, inl, inr, Bool-cases,
}
use litefunctions.Prelude.Exec.{Result, ok}
use litefunctions.Text.{Text}
use litefunctions.JsMap.{has}
use litefunctions.Conf.{Settings}
use litefunctions.Fs.{Fs}
use litefunctions.Value.{View}
use litefunctions.World.{World, Engine, Task, exec, hook}
use litefunctions.Functions.Files.{is_stem}
use litefunctions.Functions.Modules.{invoke_module, to_request_like}
use litefunctions.Consumer.{
  hook_subject, res_subject, receive, refresh, watch_ts_hook, reconcile_consumers,
}
use litefunctions.Consumer.Consistent.{IsConsistent}
use litefunctions.Consumer.Messages.{call_subject, receive-call_subject}
use litefunctions.Consumer.Refresh.{IsConsistent-IsQuiet}
use litefunctions.Consumer.Subjects.{IsSubjectRule, IsProject, IsPart}
use litefunctions.Consumer.Hooks.{
  hooks, hooks-reconcile_consumers, hooks-refresh, hooks-watch_ts_hook,
}
use litefunctions.Consumer.Delivery.{
  IsNamed, deliver, recipients, run_tasks, recipients-call_subject, recipients-hook_subject,
}
use litefunctions.State.{Broker}
use litefunctions.Main.{Server, requested_name, handle_sync_request, main}
use litefunctions.Main.Runs.{
  start, start-IsConsistent, Step, Steps, done, next, message, hook_message, request, main-ok,
  main-IsConsistent, Steps-IsConsistent, receive-IsQuiet, answer_named-IsQuiet,
}
use litefunctions.Main.Refines.{
  Names, NamesStep, keep, deploy, consumer_names, functions_in, reconcile-NamesStep, Step-NamesStep,
}

-- All of them are names that a function's file can have.
abbrev IsStems : Names → Type 0
IsStems names = (k : Text) → names k ≡ true → is_stem k ≡ true

functions_in-IsStems : (e : Engine) (fs : Fs) → IsStems (functions_in e fs)
functions_in-IsStems e fs k h = ground arith

IsStems-NamesStep :
    {there before after : Names}
    → IsStems there
    → IsStems before
    → NamesStep there before after
    → IsStems after
IsStems-NamesStep t b (keep p) = subst IsStems (sym p) b
IsStems-NamesStep t b (deploy p) = subst IsStems (sym p) t

-- The hook has one subscription, and only functions have the others.
record IsReady (s : Settings) (w : World) : Type 0 where
  consistent : IsConsistent s w
  stems : IsStems (consumer_names w)
  one_hook : hooks w.client.open_subs ≡ hook ∷ []

hooks-Step :
    (e : Engine) (v : Server) (s : Settings) {w u : World}
    → IsConsistent s w
    → Step e v s w u
    → hooks u.client.open_subs ≡ hooks w.client.open_subs
unfolding handle_sync_request
hooks-Step e v s c (message name subject payload w) =
    ap hooks (receive-IsQuiet e s name subject payload w).subs
hooks-Step e v s c (hook_message w) = hooks-refresh e s w c
hooks-Step e v s c (request req w) =
    ap hooks (answer_named-IsQuiet e v req (requested_name s req) w).subs

Steps-IsReady :
    (e : Engine) (v : Server) (s : Settings) {w u : World}
    → Steps e v s w u
    → IsReady s w
    → IsReady s u
Steps-IsReady e v s (done w) r = r
Steps-IsReady e v s (next {u = u} {x = x} steps step) r =
    let before = Steps-IsReady e v s steps r in
    record {
      consistent = Steps-IsConsistent e v s (next steps step) r.consistent;
      stems =
          IsStems-NamesStep (functions_in-IsStems e x.fs) before.stems
            (Step-NamesStep e v s before.consistent step);
      one_hook = hooks-Step e v s before.consistent step ∙ before.one_hook;
    }

no-IsStems : (w : World) → w.consumers ≡ [] → IsStems (consumer_names w)
unfolding has
no-IsStems w none_there k h = absurd (ground (arith, rw none_there at h))

watch_ts_hook-IsStems :
    (s : Settings) (w : World)
    → IsStems (consumer_names w)
    → IsStems (consumer_names (watch_ts_hook s w))
unfolding watch_ts_hook
watch_ts_hook-IsStems s w h = h

start-IsReady :
    (e : Engine) (v : Server) (b : Broker) (s : Settings) (fs : Fs) {w : World}
    → main e v b s (start fs) ≡ (ok tt, w)
    → IsReady s w
unfolding hooks
start-IsReady e v b s fs {w} started =
    let (w3, w4, quiet, reconciled, final) = main-ok e v b s (start fs) {u = w} started in
    let c3 = IsConsistent-IsQuiet s (start fs) w3 quiet (start-IsConsistent s fs) in
    let stems3 =
      IsStems-NamesStep (functions_in-IsStems e w3.fs) (no-IsStems w3 quiet.consumers)
        (reconcile-NamesStep e s w3 c3) in
    let w4_eq : (reconcile_consumers e s w3).1 ≡ w4 =
      ap (λ (r : Result _ × World). r.1) reconciled in
    record {
      consistent = main-IsConsistent e v b s (start fs) {u = w} started (start-IsConsistent s fs);
      stems = rw final (watch_ts_hook-IsStems s w4 (rw (← w4_eq) stems3));
      one_hook =
          ap (λ (x : World). hooks x.client.open_subs) final
          ∙ hooks-watch_ts_hook s w4
          ∙ ap (λ ts. ts ++ hook ∷ [])
              (ap (λ (r : Result _ × World). hooks r.1.client.open_subs) (sym reconciled)
                ∙ hooks-reconcile_consumers e s w3 c3
                ∙ ap hooks quiet.subs
                ∙ refl);
    }

module _ (matches : Text → Text → Bool) (rule : IsSubjectRule matches) (e : Engine) (v : Server)
    (b : Broker) (s : Settings) (project : IsProject s.project) (fs : Fs) {w u : World}
    (started : main e v b s (start fs) ≡ (ok tt, w)) (steps : Steps e v s w u) where
  ready : IsReady s u
  ready = Steps-IsReady e v s steps (start-IsReady e v b s fs {w = w} started)

  named : IsNamed u.client.open_subs
  named k there = ready.stems k (rw (← ready.consistent.matching) there)

  deliver-call_eq :
      (name req_id : Text) (payload : View)
      → IsPart name
      → IsPart req_id
      → deliver matches e s (call_subject s.project name req_id) payload u ≡ (
          if has name u.consumers
          then receive e s name (call_subject s.project name req_id) payload u
          else u)
  unfolding deliver
  deliver-call_eq name req_id payload n r =
      let run : List Task → World =
        λ ts. run_tasks e s (call_subject s.project name req_id) payload ts u in
      let reached =
        recipients-call_subject matches rule s project name req_id n r u.client.open_subs
          ready.consistent.subjects named (rw ready.consistent.matching ready.consistent.unique) in
      let one =
        subst
          (λ m.
            recipients matches (call_subject s.project name req_id) u.client.open_subs
            ≡ (if has name m then exec name ∷ [] else []))
          ready.consistent.matching reached in
      ap run one ∙ elim (Bool-cases (has name u.consumers)) [
        | inl there ↦ rw there refl
        | inr absent ↦ rw absent refl
      ]

  -- A call `<project>.<name>.exec.ts.<id>` reaches the consumer of its function once, and no other.
  -- Whatever the runtime did since a start that succeeded, what the function yields for the call, all
  -- of it and in order, is published on `<project>.<name>.res.ts.<id>` if the name has a consumer,
  -- and nothing is published if it has none; CONSUMERS and the open subscriptions stay. The three
  -- parts of the subject are not empty and hold no dot, the project is not `>`, and the message
  -- server matches subjects token by token.
  pub deliver-call_subject :
      (name req_id : Text) (payload : View)
      → IsPart name
      → IsPart req_id
      → let after = deliver matches e s (call_subject s.project name req_id) payload u in
        let outputs = (invoke_module e name (to_request_like e payload) u).0.outputs in
        (after.client ≡ record u.client {
          published =
              u.client.published
              ++ (if has name u.consumers
                  then map (λ out. (res_subject s name req_id, out)) outputs
                  else []);
        })
        × (after.consumers ≡ u.consumers)
  deliver-call_subject name req_id payload n r =
      let call = deliver-call_eq name req_id payload n r in
      let (client, consumers) = receive-call_subject e s name req_id payload u project.1 n.1 r.1 in
      elim (Bool-cases (has name u.consumers)) [
        | inl there ↦ rw (call, there) (client, consumers)
        | inr absent ↦ rw (call, absent) (rw (append-nil u.client.published) (refl, refl))
      ]

  -- A message of the hook leads to one refresh, and reaches no function, whatever the runtime did
  -- since a start that succeeded. The project's name is not empty, is not `>` and holds no dot, and
  -- the message server matches subjects token by token.
  pub deliver-hook_subject :
      (payload : View) → deliver matches e s (hook_subject s) payload u ≡ refresh e s u
  unfolding deliver
  deliver-hook_subject payload =
      ap (λ ts. run_tasks e s (hook_subject s) payload ts u)
        (recipients-hook_subject matches rule s project u.client.open_subs ready.consistent.subjects
            named
          ∙ ready.one_hook)
