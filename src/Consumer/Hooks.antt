-- ===== src/Consumer/Hooks.antt =====
-- The subscriptions of the hook (`watchTSHook`, runtimes/ts/pkg/consumer.ts): what the consumers'
-- subscriptions do to them.
use litefunctions.Prelude.{
  ℕ, ◌≡◌, refl, ap, ◌∙◌, List, [], ◌∷◌, ◌++◌, arith, inl, inr, Bool-cases, some,
}
use litefunctions.Prelude.Exec.{Result-cases}
use litefunctions.Text.{Text, text_eq}
use litefunctions.JsMap.{JsMap, get, has, keys, member, set_of}
use litefunctions.JsMap.Laws.{IsNodup}
use litefunctions.Conf.{Settings}
use litefunctions.World.{
  World, Engine, Subscription, Task, exec, hook, subscribe, unsubscribe, without_sid,
}
use litefunctions.Functions.Files.{list_functions, sync_repo_and_reload}
use litefunctions.Consumer.{
  exec_subject, hook_subject, consume_function, stop_consumer, stop_stale, start_missing,
  reconcile_consumers, refresh, watch_ts_hook,
}
use litefunctions.Consumer.Consistent.{
  IsConsistent, served, Task-cases, IsDistinct, served-sid, without_sid_absent,
  stop_consumer-IsConsistent,
}
use litefunctions.Consumer.Reconcile.{IsEntries, IsEntries-delete, IsEntries-self, reconcile_steps}
use litefunctions.Consumer.Refresh.{
  IsConsistent-IsQuiet, sync_repo_and_reload-IsQuiet, reconcile_unlisted,
}

-- The subscriptions of the hook.
unfoldable pub hooks : List Subscription → List Task
hooks [] = []
hooks (x ∷ xs) = elim x.task [ exec name ↦ hooks xs | hook ↦ hook ∷ hooks xs ]

hooks-append :
    (xs : List Subscription) (sid : ℕ) (t name : Text)
    → hooks (xs ++ record { sid = sid; subject = t; task = exec name } ∷ []) ≡ hooks xs
unfolding hooks
hooks-append [] sid t name = refl
hooks-append (x ∷ xs) sid t name = elim (Task-cases x.task) [
  | inl e ↦ rw e (ap (λ ts. hook ∷ ts) (hooks-append xs sid t name))
  | inr (m, e) ↦ rw e (hooks-append xs sid t name)
]

hooks-append_hook :
    (xs : List Subscription) (sid : ℕ) (t : Text)
    → hooks (xs ++ record { sid = sid; subject = t; task = hook } ∷ []) ≡ hooks xs ++ hook ∷ []
unfolding hooks
hooks-append_hook [] sid t = refl
hooks-append_hook (x ∷ xs) sid t = elim (Task-cases x.task) [
  | inl e ↦ rw e (ap (λ ts. hook ∷ ts) (hooks-append_hook xs sid t))
  | inr (m, e) ↦ rw e (hooks-append_hook xs sid t)
]

-- Ending a function's subscription leaves those of the hook.
hooks-without_sid :
    (name : Text) (sid : ℕ) (xs : List Subscription)
    → IsDistinct xs
    → get name (served xs) ≡ some sid
    → hooks (without_sid sid xs) ≡ hooks xs
unfolding get served without_sid hooks
hooks-without_sid name sid [] d g = refl
hooks-without_sid name sid (x ∷ xs) (p, d) g = elim (Task-cases x.task) [
  | inl e ↦
      let g' = rw e at g in
      ground (arith, e, served-sid name x.sid sid xs p g', hooks-without_sid name sid xs d g')
  | inr (m, e) ↦ elim (Bool-cases (text_eq m name)) [
    | inl same ↦ ground (arith, e, same, g, without_sid_absent x.sid xs p)
    | inr other ↦
        let g' = rw other at (rw e at g) in
        ground
          (arith, e, other, served-sid name x.sid sid xs p g', hooks-without_sid name sid xs d g')
  ]
]

module _ (s : Settings) (desired : List Text) where
  hooks-stop_stale :
      (es : JsMap ℕ) (w : World)
      → IsNodup (keys es)
      → IsEntries w.consumers es
      → IsConsistent s w
      → hooks (stop_stale es desired w).client.open_subs ≡ hooks w.client.open_subs
  unfolding stop_stale keys
  hooks-stop_stale [] w d h c = refl
  hooks-stop_stale ((n, sid) ∷ es) w (out, d) (p, h) c = elim (Bool-cases (member n desired)) [
    | inl wanted ↦ rw (stop_stale, wanted) (hooks-stop_stale es w d h c)
    | inr stale ↦
        rw (stop_stale, stale)
          (hooks-stop_stale es (stop_consumer n sid w) d
              (unfold stop_consumer in IsEntries-delete n w.consumers es c.unique out h)
              (stop_consumer-IsConsistent s n sid w p c)
            ∙ (unfold stop_consumer unsubscribe in
                hooks-without_sid n sid w.client.open_subs c.distinct (rw c.matching p)))
  ]

hooks-start_missing :
    (s : Settings) (names : List Text) (w : World)
    → hooks (start_missing s names w).client.open_subs ≡ hooks w.client.open_subs
unfolding start_missing consume_function subscribe
hooks-start_missing s [] w = refl
hooks-start_missing s (n ∷ names) w = elim (Bool-cases (has n w.consumers)) [
  | inl there ↦ rw (start_missing, there) (hooks-start_missing s names w)
  | inr absent ↦
      rw (start_missing, absent)
        (hooks-start_missing s names (consume_function s n w)
          ∙ hooks-append w.client.open_subs w.client.next_sid (exec_subject s n) n)
]

-- The reconciliation leaves the subscriptions of the hook alone.
pub hooks-reconcile_consumers :
    (e : Engine) (s : Settings) (w : World)
    → IsConsistent s w
    → hooks (reconcile_consumers e s w).1.client.open_subs ≡ hooks w.client.open_subs
hooks-reconcile_consumers e s w c = elim (Result-cases (list_functions e w).0) [
  | inl (names, listed) ↦ rw (reconcile_steps e s w names listed) (
      hooks-start_missing s (set_of names) (stop_stale w.consumers (set_of names) w)
      ∙ hooks-stop_stale s (set_of names) w.consumers w c.unique
          (IsEntries-self w.consumers c.unique) c)
  | inr (x, failure) ↦ rw (reconcile_unlisted e s w failure) refl
]

-- So does a refresh.
pub hooks-refresh :
    (e : Engine) (s : Settings) (w : World)
    → IsConsistent s w
    → hooks (refresh e s w).client.open_subs ≡ hooks w.client.open_subs
unfolding refresh
hooks-refresh e s w c =
    let quiet = sync_repo_and_reload-IsQuiet e s w in
    elim (Result-cases (sync_repo_and_reload e s w).0) [
      | inl (n, good) ↦
          rw (refresh, good)
            (hooks-reconcile_consumers e s (sync_repo_and_reload e s w).1
                (IsConsistent-IsQuiet s w _ quiet c)
              ∙ ap hooks quiet.subs)
      | inr (x, bad) ↦ rw (refresh, bad) (ap hooks quiet.subs)
    ]

pub hooks-watch_ts_hook :
    (s : Settings) (w : World)
    → hooks (watch_ts_hook s w).client.open_subs ≡ hooks w.client.open_subs ++ hook ∷ []
unfolding watch_ts_hook subscribe
hooks-watch_ts_hook s w = hooks-append_hook w.client.open_subs w.client.next_sid (hook_subject s)
