-- ===== src/Consumer/Delivery.antt =====
-- The loops of `consumeFunction` and `watchTSHook` (runtimes/ts/pkg/consumer.ts) as the receivers of
-- a message: each open subscription whose subject takes the message runs its task.
use litefunctions.Prelude.{
  ◌≡◌, refl, ap, ◌∙◌, Bool, true, false, List, [], ◌∷◌, if◌then◌else◌, All, arith, inl, inr,
  Bool-cases,
}
use litefunctions.Text.{Text, text_eq}
use litefunctions.Text.Equality.{text_eq_iff, text_eq_refl}
use litefunctions.JsMap.{has, keys}
use litefunctions.JsMap.Laws.{IsNodup, has-keys}
use litefunctions.Conf.{Settings}
use litefunctions.Value.{View}
use litefunctions.World.{World, Engine, Subscription, Task, exec, hook}
use litefunctions.Functions.Files.{is_stem}
use litefunctions.Functions.Files.Names.{IsFunctionName, is_stem_iff}
use litefunctions.Consumer.{hook_subject, receive, refresh}
use litefunctions.Consumer.Hooks.{hooks}
use litefunctions.Consumer.Consistent.{served, subject_of, Task-cases}
use litefunctions.Consumer.Messages.{call_subject}
use litefunctions.Consumer.Subjects.{
  IsSubjectRule, IsProject, IsPart, matches-exec_subject, matches-hook_subject,
  hook_subject-matches, exec_subject-matches_hook,
}

-- The tasks of the open subscriptions that take a message on the subject.
unfoldable pub recipients : (Text → Text → Bool) → Text → List Subscription → List Task
recipients matches subject [] = []
recipients matches subject (x ∷ xs) =
    let rest = recipients matches subject xs in
    if matches x.subject subject then x.task ∷ rest else rest

-- A round of a subscription's loop.
abbrev pub run_task : Engine → Settings → Text → View → Task → World → World
run_task e s subject payload (exec name) w = receive e s name subject payload w
run_task e s subject payload hook w = refresh e s w

abbrev pub run_tasks : Engine → Settings → Text → View → List Task → World → World
run_tasks e s subject payload [] w = w
run_tasks e s subject payload (t ∷ ts) w =
    run_tasks e s subject payload ts (run_task e s subject payload t w)

-- A message arrives: every open subscription that takes it gets it.
unfoldable pub deliver : (Text → Text → Bool) → Engine → Settings → Text → View → World → World
unfolding recipients
deliver matches e s subject payload w =
    run_tasks e s subject payload (recipients matches subject w.client.open_subs) w

-- Each subscription that serves a function serves one whose name a file can have.
abbrev pub IsNamed : List Subscription → Type 0
IsNamed xs = (k : Text) → has k (served xs) ≡ true → is_stem k ≡ true

IsNamed-head :
    (x : Subscription) (xs : List Subscription) (k : Text)
    → x.task ≡ exec k
    → IsNamed (x ∷ xs)
    → IsFunctionName k
unfolding has served
IsNamed-head x xs k e h = (is_stem_iff k).0 (h k (rw e (rw (text_eq_refl k) refl)))

IsNamed-tail : (x : Subscription) (xs : List Subscription) → IsNamed (x ∷ xs) → IsNamed xs
unfolding has served
IsNamed-tail x xs h k there = elim (Task-cases x.task) [
  | inl e ↦ h k (rw e there)
  | inr (m, e) ↦ h k (rw e (rw there (ground arith)))
]

IsNodup-tail :
    (x : Subscription) (xs : List Subscription)
    → IsNodup (keys (served (x ∷ xs)))
    → IsNodup (keys (served xs))
unfolding served keys
IsNodup-tail x xs h = elim (Task-cases x.task) [ inl e ↦ rw e at h | inr (m, e) ↦ (rw e at h).1 ]

IsNodup-head :
    (x : Subscription) (xs : List Subscription) (k : Text)
    → x.task ≡ exec k
    → IsNodup (keys (served (x ∷ xs)))
    → has k (served xs) ≡ false
unfolding served keys
IsNodup-head x xs k e h = has-keys k (served xs) ∙ (rw e at h).0

module _ (matches : Text → Text → Bool) (rule : IsSubjectRule matches) (s : Settings)
    (project : IsProject s.project) where
  -- A call reaches the one subscription of its function, and no other.
  pub recipients-call_subject :
      (name req_id : Text)
      → IsPart name
      → IsPart req_id
      → (xs : List Subscription) → All (λ x. x.subject ≡ subject_of s x.task) xs
      → IsNamed xs
      → IsNodup (keys (served xs))
      → recipients matches (call_subject s.project name req_id) xs
        ≡ (if has name (served xs) then exec name ∷ [] else [])
  unfolding recipients has served
  recipients-call_subject name req_id n r [] subjects named nodup = refl
  recipients-call_subject name req_id n r (x ∷ xs) (own, subjects) named nodup =
      let rest =
        recipients-call_subject name req_id n r xs subjects (IsNamed-tail x xs named)
          (IsNodup-tail x xs nodup) in
      elim (Task-cases x.task) [
        | inl e ↦
            let no = matches-hook_subject matches rule s project name req_id n r in
            rw own (rw e (rw no rest))
        | inr (k, e) ↦
            let mine =
              matches-exec_subject matches rule s project name req_id n r k
                (IsNamed-head x xs k e named) in
            let fresh = IsNodup-head x xs k e nodup in
            elim (Bool-cases (text_eq k name)) [
              | inl same ↦
                  let absent = rw ((text_eq_iff k name).0 same) at fresh in
                  rw own (
                    rw e (
                      rw mine (
                        rw same (
                          rw rest
                            (rw absent (ap (λ t. exec t ∷ []) ((text_eq_iff k name).0 same)))))))
              | inr other ↦ rw own (rw e (rw mine (rw other rest)))
            ]
      ]

module _ (matches : Text → Text → Bool) (rule : IsSubjectRule matches) (s : Settings)
    (project : IsProject s.project) where
  -- The hook's message reaches the hook's subscriptions, and no function's.
  pub recipients-hook_subject :
      (xs : List Subscription)
      → All (λ x. x.subject ≡ subject_of s x.task) xs
      → IsNamed xs
      → recipients matches (hook_subject s) xs ≡ hooks xs
  unfolding recipients hooks
  recipients-hook_subject [] subjects named = refl
  recipients-hook_subject (x ∷ xs) (own, subjects) named =
      let rest = recipients-hook_subject xs subjects (IsNamed-tail x xs named) in
      elim (Task-cases x.task) [
        | inl e ↦
            let yes = hook_subject-matches matches rule s project in
            rw own (rw e (rw yes (ap (λ ts. hook ∷ ts) rest)))
        | inr (k, e) ↦
            let no =
              exec_subject-matches_hook matches rule s project k (IsNamed-head x xs k e named) in
            rw own (rw e (rw no rest))
      ]
