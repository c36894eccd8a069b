-- ===== src/Consumer/Consistent.antt =====
-- The invariant that joins CONSUMERS to the open subscriptions.
use litefunctions.Prelude.{
  ℕ, ◌+◌, ◌<◌, ◌≡◌, ◌≢◌, refl, sym, ap, ◌∙◌, subst, ◌⊎◌, false, List, [], ◌∷◌, ◌++◌, ◌==◌, arith,
  some, Bool-cases, Mem, mem-cons_self, mem-cons_of_mem, inl, inr, All, All-append,
}
use litefunctions.Text.{Text, text_eq}
use litefunctions.Text.Equality.{text_eq_iff}
use litefunctions.JsMap.{JsMap, get, has, set, delete, keys}
use litefunctions.JsMap.Laws.{IsNodup, delete-IsNodup, set-IsNodup}
use litefunctions.Conf.{Settings}
use litefunctions.World.{World, Subscription, Task, exec, hook, subscribe, unsubscribe, without_sid}
use litefunctions.Consumer.{
  exec_subject, hook_subject, consume_function, stop_consumer, watch_ts_hook,
}

abbrev consumer_entry : ℕ → Task → JsMap ℕ → JsMap ℕ
consumer_entry n (exec name) m = (name, n) ∷ m
consumer_entry n hook m = m

-- The names that the open subscriptions serve, each with its subscription.
unfoldable pub served : List Subscription → JsMap ℕ
served [] = []
served (x ∷ xs) = consumer_entry x.sid x.task (served xs)

-- No two subscriptions share an id.
abbrev pub IsDistinct : List Subscription → Type 0
IsDistinct [] = Unit
IsDistinct (x ∷ xs) = All (λ y. y.sid ≢ x.sid) xs × IsDistinct xs

abbrev pub subject_of : Settings → Task → Text
subject_of s (exec name) = exec_subject s name
subject_of s hook = hook_subject s

-- CONSUMERS holds, in order, exactly the open subscriptions that serve a function, each function
-- once; ids are distinct and below the next; each subscription is on its own subject.
pub record IsConsistent (s : Settings) (w : World) : Type 0 where
  pub matching : served w.client.open_subs ≡ w.consumers
  pub unique : IsNodup (keys w.consumers)
  pub distinct : IsDistinct w.client.open_subs
  pub below : All (λ x. x.sid < w.client.next_sid) w.client.open_subs
  pub subjects : All (λ x. x.subject ≡ subject_of s x.task) w.client.open_subs

without_sid-All :
    (P : Subscription → Type 0) (n : ℕ) (xs : List Subscription)
    → All P xs
    → All P (without_sid n xs)
unfolding without_sid
without_sid-All P n [] h = h
without_sid-All P n (x ∷ xs) (p, h) = elim (Bool-cases (x.sid == n)) [
  | inl same ↦ rw same (without_sid-All P n xs h)
  | inr other ↦ rw other (p, without_sid-All P n xs h)
]

without_sid-IsDistinct :
    (n : ℕ) (xs : List Subscription) → IsDistinct xs → IsDistinct (without_sid n xs)
unfolding without_sid
without_sid-IsDistinct n [] h = h
without_sid-IsDistinct n (x ∷ xs) (p, h) = elim (Bool-cases (x.sid == n)) [
  | inl same ↦ rw same (without_sid-IsDistinct n xs h)
  | inr other ↦ rw other (without_sid-All _ n xs p, without_sid-IsDistinct n xs h)
]

pub without_sid_absent :
    (n : ℕ) (xs : List Subscription) → All (λ y. y.sid ≢ n) xs → without_sid n xs ≡ xs
unfolding without_sid
without_sid_absent n [] h = refl
without_sid_absent n (x ∷ xs) (p, h) = ground (arith, without_sid_absent n xs h)

pub Task-cases : (t : Task) → (t ≡ hook) ⊎ ((name : Text) × (t ≡ exec name))
Task-cases hook = inl refl
Task-cases (exec name) = inr (name, refl)

-- The id under which a name is served is the id of a subscription.
pub served-sid :
    (name : Text) (k sid : ℕ) (xs : List Subscription)
    → All (λ y. y.sid ≢ k) xs
    → get name (served xs) ≡ some sid
    → sid ≢ k
unfolding get served
served-sid name k sid [] h g = absurd (cc g)
served-sid name k sid (x ∷ xs) (p, h) g = elim (Task-cases x.task) [
  | inl e ↦ served-sid name k sid xs h (rw e at g)
  | inr (m, e) ↦ elim (Bool-cases (text_eq m name)) [
    | inl same ↦ ground (arith, e, same, g)
    | inr other ↦ served-sid name k sid xs h (rw other at (rw e at g))
  ]
]

-- The subscription by which a name is served is open, on the name's own subject.
pub served-Mem :
    (s : Settings) (name : Text) (sid : ℕ) (xs : List Subscription)
    → All (λ x. x.subject ≡ subject_of s x.task) xs
    → get name (served xs) ≡ some sid
    → Mem (record { sid = sid; subject = exec_subject s name; task = exec name }) xs
unfolding get served
served-Mem s name sid [] h g = absurd (cc g)
served-Mem s name sid (x ∷ xs) (p, h) g = elim (Task-cases x.task) [
  | inl e ↦ mem-cons_of_mem x (served-Mem s name sid xs h (rw e at g))
  | inr (m, e) ↦ elim (Bool-cases (text_eq m name)) [
    | inl same ↦
        let task = e ∙ ap exec ((text_eq_iff m name).0 same) in
        let id : x.sid ≡ sid = cc (rw same at (rw e at g)) in
        let subject : x.subject ≡ exec_subject s name = p ∙ ap (subject_of s) task in
        let is : x ≡ record { sid = sid; subject = exec_subject s name; task = exec name } =
          λ i. record { sid = id i; subject = subject i; task = task i } in
        subst (λ y. Mem y (x ∷ xs)) is mem-cons_self
    | inr other ↦ mem-cons_of_mem x (served-Mem s name sid xs h (rw other at (rw e at g)))
  ]
]

-- Ending the subscription of a name takes the name out of what is served.
served-without_sid :
    (name : Text) (sid : ℕ) (xs : List Subscription)
    → IsDistinct xs
    → get name (served xs) ≡ some sid
    → served (without_sid sid xs) ≡ delete name (served xs)
unfolding get served without_sid delete
served-without_sid name sid [] d g = absurd (cc g)
served-without_sid name sid (x ∷ xs) (p, d) g = elim (Task-cases x.task) [
  | inl e ↦
      let g' = rw e at g in
      ground (arith, e, served-sid name x.sid sid xs p g', served-without_sid name sid xs d g')
  | inr (m, e) ↦ elim (Bool-cases (text_eq m name)) [
    | inl same ↦ ground (arith, e, same, g, without_sid_absent x.sid xs p)
    | inr other ↦
        let g' = rw other at (rw e at g) in
        ground
          (arith, e, other, served-sid name x.sid sid xs p g', served-without_sid name sid xs d g')
  ]
]

-- Stopping a consumer keeps CONSUMERS and the subscriptions in step.
pub stop_consumer-IsConsistent :
    (s : Settings) (name : Text) (sid : ℕ) (w : World)
    → get name w.consumers ≡ some sid
    → IsConsistent s w
    → IsConsistent s (stop_consumer name sid w)
unfolding stop_consumer unsubscribe
stop_consumer-IsConsistent s name sid w g c = record {
  matching =
      served-without_sid name sid w.client.open_subs c.distinct (rw c.matching g)
      ∙ ap (delete name) c.matching;
  unique = delete-IsNodup name w.consumers c.unique;
  distinct = without_sid-IsDistinct sid w.client.open_subs c.distinct;
  below = without_sid-All _ sid w.client.open_subs c.below;
  subjects = without_sid-All _ sid w.client.open_subs c.subjects;
}

served-append :
    (xs : List Subscription) (sid : ℕ) (t name : Text)
    → served (xs ++ record { sid = sid; subject = t; task = exec name } ∷ [])
      ≡ served xs ++ (name, sid) ∷ []
unfolding served
served-append [] sid t name = refl
served-append (x ∷ xs) sid t name = elim (Task-cases x.task) [
  | inl e ↦ rw e (served-append xs sid t name)
  | inr (m, e) ↦ rw e (ap (λ l. (m, x.sid) ∷ l) (served-append xs sid t name))
]

set_absent :
    (name : Text) (v : ℕ) (m : JsMap ℕ) → has name m ≡ false → set name v m ≡ m ++ (name, v) ∷ []
unfolding has set
set_absent name v [] h = refl
set_absent name v ((j, w) ∷ m) h = ground (arith, set_absent name v m)

IsDistinct-append :
    (xs : List Subscription) (x : Subscription)
    → IsDistinct xs
    → All (λ y. y.sid < x.sid) xs
    → IsDistinct (xs ++ x ∷ [])
IsDistinct-append [] x d h = (tt, tt)
IsDistinct-append (y ∷ xs) x (p, d) (q, h) =
    (All-append _ xs (x ∷ []) p (omega arith, tt), IsDistinct-append xs x d h)

All-weaken :
    (n : ℕ) (xs : List Subscription) → All (λ y. y.sid < n) xs → All (λ y. y.sid < n + 1) xs
All-weaken n [] h = tt
All-weaken n (x ∷ xs) (p, h) = (omega arith, All-weaken n xs h)

-- So does a new consumer, for a name that has none.
pub consume_function-IsConsistent :
    (s : Settings) (name : Text) (w : World)
    → has name w.consumers ≡ false
    → IsConsistent s w
    → IsConsistent s (consume_function s name w)
unfolding consume_function subscribe
consume_function-IsConsistent s name w absent c = record {
  matching =
      served-append w.client.open_subs w.client.next_sid (exec_subject s name) name
      ∙ ap (λ m. m ++ (name, w.client.next_sid) ∷ []) c.matching
      ∙ sym (set_absent name w.client.next_sid w.consumers absent);
  unique = set-IsNodup name w.client.next_sid w.consumers c.unique;
  distinct = IsDistinct-append w.client.open_subs _ c.distinct c.below;
  below =
      All-append _ w.client.open_subs _ (All-weaken w.client.next_sid w.client.open_subs c.below)
        (omega arith, tt);
  subjects = All-append _ w.client.open_subs _ c.subjects (refl, tt);
}

served-append_hook :
    (xs : List Subscription) (sid : ℕ) (t : Text)
    → served (xs ++ record { sid = sid; subject = t; task = hook } ∷ []) ≡ served xs
unfolding served
served-append_hook [] sid t = refl
served-append_hook (x ∷ xs) sid t = elim (Task-cases x.task) [
  | inl e ↦ rw e (served-append_hook xs sid t)
  | inr (m, e) ↦ rw e (ap (λ l. (m, x.sid) ∷ l) (served-append_hook xs sid t))
]

-- The hook's subscription is no consumer.
pub watch_ts_hook-IsConsistent :
    (s : Settings) (w : World) → IsConsistent s w → IsConsistent s (watch_ts_hook s w)
unfolding watch_ts_hook subscribe
watch_ts_hook-IsConsistent s w c = record {
  matching = served-append_hook w.client.open_subs w.client.next_sid (hook_subject s) ∙ c.matching;
  unique = c.unique;
  distinct = IsDistinct-append w.client.open_subs _ c.distinct c.below;
  below =
      All-append _ w.client.open_subs _ (All-weaken w.client.next_sid w.client.open_subs c.below)
        (omega arith, tt);
  subjects = All-append _ w.client.open_subs _ c.subjects (refl, tt);
}
