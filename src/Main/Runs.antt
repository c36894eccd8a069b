-- ===== src/Main/Runs.antt =====
-- The runtime from its start on: `main` (runtimes/ts/main.ts), and then any sequence of messages,
-- refreshes and synchronous requests, one after the other.
use litefunctions.Prelude.{◌≡◌, refl, sym, ap, ◌∙◌, subst, [], ◌∷◌, inl, inr}
use litefunctions.Prelude.Exec.{Result, ok, Result-cases, >>=-ok}
use litefunctions.Text.{Text}
use litefunctions.JsMap.{keys}
use litefunctions.Conf.{Settings}
use litefunctions.Fs.{Fs}
use litefunctions.Value.{View}
use litefunctions.World.{World, Engine, Client}
use litefunctions.Functions.Files.{ensure_runtime_dir, sync_repo_and_reload}
use litefunctions.Functions.Modules.Keeps.{invoke_module-IsKept}
use litefunctions.Functions.Modules.{invoke_module, to_request_like}
use litefunctions.Consumer.{
  request_id, res_subject, receive, refresh, reconcile_consumers, watch_ts_hook,
}
use litefunctions.Consumer.Consistent.{IsConsistent, served, watch_ts_hook-IsConsistent}
use litefunctions.Consumer.Messages.{publish_all-published}
use litefunctions.Consumer.Refresh.{
  IsQuiet, IsQuiet-trans, IsConsistent-IsQuiet, ensure_runtime_dir-IsQuiet,
  sync_repo_and_reload-IsQuiet, refresh-IsConsistent, reconcile_always,
}
use litefunctions.State.{Broker, app_state_new}
use litefunctions.State.Streams.{app_state_new-ok}
use litefunctions.Main.{
  Request, Server, readable, read, as_request_like, requested_name, answer_named,
  handle_sync_request, main,
}

-- The process before `main`: no module is loaded, nothing is subscribed or published.
abbrev pub start : Fs → World
start fs = record {
  fs = fs;
  modules = [];
  module_version = 1;
  imports = [];
  client = record { open_subs = []; next_sid = 0; published = [] };
  consumers = [];
}

pub start-IsConsistent : (s : Settings) (fs : Fs) → IsConsistent s (start fs)
unfolding keys
start-IsConsistent s fs = record {
  matching = unfold served in refl;
  unique = tt;
  distinct = tt;
  below = tt;
  subjects = tt;
}

module _ (e : Engine) (v : Server) (s : Settings) where
  -- What the running process does at a time: a message of a function's subscription, a message of
  -- the hook's, or a synchronous request.
  pub data Step : World → World → Type 0 where
    message :
        (name subject : Text) (payload : View) (w : World)
        → Step w (receive e s name subject payload w)
    hook_message : (w : World) → Step w (refresh e s w)
    request : (req : Request) (w : World) → Step w (handle_sync_request e v s req w).1

  pub data Steps : World → World → Type 0 where
    done : (w : World) → Steps w w
    next : {w u x : World} → Steps w u → Step u x → Steps w x

pub receive-IsQuiet :
    (e : Engine) (s : Settings) (name subject : Text) (payload : View) (w : World)
    → IsQuiet w (receive e s name subject payload w)
unfolding receive
receive-IsQuiet e s name subject payload w =
    let kept = invoke_module-IsKept e name (to_request_like e payload) w in
    let published =
      publish_all-published (res_subject s name (request_id subject))
        (invoke_module e name (to_request_like e payload) w).0.outputs
        (invoke_module e name (to_request_like e payload) w).1.client in
    record {
      subs =
          ap (λ (c : Client). c.open_subs) published ∙ ap (λ (c : Client). c.open_subs) kept.client;
      sids =
          ap (λ (c : Client). c.next_sid) published ∙ ap (λ (c : Client). c.next_sid) kept.client;
      consumers = kept.consumers;
    }

pub answer_named-IsQuiet :
    (e : Engine) (v : Server) (req : Request) (name : Text) (w : World)
    → IsQuiet w (answer_named e v req name w).1
unfolding answer_named
answer_named-IsQuiet e v req [] w = record { subs = refl; sids = refl; consumers = refl }
answer_named-IsQuiet e v req (c ∷ name) w =
    let kept = invoke_module-IsKept e (c ∷ name) (as_request_like e v (read req)) w in
    elim (Result-cases (readable v req)) [
      | inr (x, bad) ↦ rw (answer_named, bad) record { subs = refl; sids = refl; consumers = refl }
      | inl (b, good) ↦
          rw (answer_named, good)
            record {
              subs = ap (λ (c : Client). c.open_subs) kept.client;
              sids = ap (λ (c : Client). c.next_sid) kept.client;
              consumers = kept.consumers;
            }
    ]

module _ (e : Engine) (v : Server) (s : Settings) where
  Step-IsConsistent : {w u : World} → Step e v s w u → IsConsistent s w → IsConsistent s u
  unfolding handle_sync_request
  Step-IsConsistent (message name subject payload w) c =
      IsConsistent-IsQuiet s w _ (receive-IsQuiet e s name subject payload w) c
  Step-IsConsistent (hook_message w) c = refresh-IsConsistent e s w c
  Step-IsConsistent (request req w) c =
      IsConsistent-IsQuiet s w _ (answer_named-IsQuiet e v req (requested_name s req) w) c

  pub Steps-IsConsistent : {w u : World} → Steps e v s w u → IsConsistent s w → IsConsistent s u
  Steps-IsConsistent (done w) c = c
  Steps-IsConsistent (next steps step) c = Step-IsConsistent step (Steps-IsConsistent steps c)

-- `main`, step by step.
pub main-ok :
    (e : Engine) (v : Server) (b : Broker) (s : Settings) (w : World) {u : World}
    → main e v b s w ≡ (ok tt, u)
    → (w3 : World) × (w4 : World) × IsQuiet w w3
      × (reconcile_consumers e s w3 ≡ (ok tt, w4))
      × (u ≡ watch_ts_hook s w4)
unfolding main
main-ok e v b s w {u} h =
    let (_, w1, made, h1) = >>=-ok (ensure_runtime_dir e) _ w h in
    let (_, w2, joined, h2) = >>=-ok (app_state_new b s) _ w1 h1 in
    let (n, w3, synced, h3) = >>=-ok (sync_repo_and_reload e s) _ w2 h2 in
    let (_, w4, started, h4) = >>=-ok (reconcile_consumers e s) _ w3 h3 in
    let q1 : IsQuiet w w1 =
      subst (λ (r : Result _ × World). IsQuiet w r.1) made (ensure_runtime_dir-IsQuiet e w) in
    let same : w1 ≡ w2 =
      sym ((app_state_new-ok b s w1).1) ∙ ap (λ (r : Result _ × World). r.1) joined in
    let q3 : IsQuiet w2 w3 =
      subst (λ (r : Result _ × World). IsQuiet w2 r.1) synced
        (sync_repo_and_reload-IsQuiet e s w2) in
    (
      w3,
      w4,
      IsQuiet-trans w w2 w3 (rw (← same) q1) q3,
      started,
      sym (ap (λ (r : Result _ × World). r.1) h4),
    )

pub main-IsConsistent :
    (e : Engine) (v : Server) (b : Broker) (s : Settings) (w : World) {u : World}
    → main e v b s w ≡ (ok tt, u)
    → IsConsistent s w
    → IsConsistent s u
main-IsConsistent e v b s w {u} h c =
    let (w3, w4, quiet, started, final) = main-ok e v b s w {u = u} h in
    let c4 =
      subst (λ (r : Result _ × World). IsConsistent s r.1) started
        (reconcile_always e s w3 (IsConsistent-IsQuiet s w w3 quiet c)) in
    rw final (watch_ts_hook-IsConsistent s w4 c4)

-- From a start that succeeds on, whatever messages, refreshes and requests follow, CONSUMERS holds
-- exactly the open subscriptions that serve a function, one for each name, with distinct ids, and
-- each on its own subject.
pub main-Steps :
    (e : Engine) (v : Server) (b : Broker) (s : Settings) (fs : Fs) {w u : World}
    → main e v b s (start fs) ≡ (ok tt, w)
    → Steps e v s w u
    → IsConsistent s u
main-Steps e v b s fs {w} h steps =
    Steps-IsConsistent e v s steps
      (main-IsConsistent e v b s (start fs) {u = w} h (start-IsConsistent s fs))
