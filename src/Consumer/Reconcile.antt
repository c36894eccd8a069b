-- ===== src/Consumer/Reconcile.antt =====
-- What `reconcileConsumers` leaves: a consumer for each function, and for no other name.
use litefunctions.Prelude.{
  ℕ, ◌≡◌, refl, ap, ◌∙◌, Bool, true, false, not, ◌&&◌, ◌||◌, List, [], ◌∷◌, if◌then◌else◌, arith,
  none, some, Bool-cases, inl, inr, All, Mem,
}
use litefunctions.Prelude.Exec.{ok}
use litefunctions.Text.{Text, is_some}
use litefunctions.Text.Equality.{text_eq_iff}
use litefunctions.JsMap.{JsMap, get, has, delete, keys, member, set_of}
use litefunctions.JsMap.Laws.{
  IsNodup, has-keys, get-delete, get-set, has-set, has_of_get, has-get, delete-IsNodup,
  member-set_of,
}
use litefunctions.Conf.{Settings}
use litefunctions.World.{World, Engine, Subscription, exec, subscribe}
use litefunctions.Functions.Files.{list_functions}
use litefunctions.Consumer.{
  exec_subject, stop_stale, stop_consumer, start_missing, consume_function, reconcile_consumers,
}
use litefunctions.Consumer.Consistent.{
  IsConsistent, served-Mem, stop_consumer-IsConsistent, consume_function-IsConsistent,
}

-- Each entry is what the map has for its key.
abbrev pub IsEntries : JsMap ℕ → JsMap ℕ → Type 0
IsEntries m es = All (λ e. get e.0 m ≡ some e.1) es

IsEntries-cons :
    (n : Text) (v : ℕ) (m es : JsMap ℕ)
    → member n (keys es) ≡ false
    → IsEntries m es
    → IsEntries ((n, v) ∷ m) es
unfolding get keys member
IsEntries-cons n v m [] out h = tt
IsEntries-cons n v m ((j, u) ∷ es) out (p, h) =
    (ground (arith, text_eq_iff n j, text_eq_iff j n), IsEntries-cons n v m es (ground arith) h)

pub IsEntries-self : (m : JsMap ℕ) → IsNodup (keys m) → IsEntries m m
unfolding keys
IsEntries-self [] d = tt
IsEntries-self ((n, v) ∷ m) (out, d) =
    (unfold get in ground (arith, text_eq_iff n n), IsEntries-cons n v m m out (IsEntries-self m d))

pub IsEntries-delete :
    (n : Text) (m es : JsMap ℕ)
    → IsNodup (keys m)
    → member n (keys es) ≡ false
    → IsEntries m es
    → IsEntries (delete n m) es
unfolding keys member
IsEntries-delete n m [] d out h = tt
IsEntries-delete n m ((j, u) ∷ es) d out (p, h) = (
  ground (arith, get-delete n j m d, text_eq_iff n j, text_eq_iff j n),
  IsEntries-delete n m es d (ground arith) h,
)

abbrev is_stale : JsMap ℕ → List Text → Text → Bool
is_stale es desired k = member k (keys es) && not (member k desired)

module _ (s : Settings) (desired : List Text) where
  stop_stale-IsConsistent :
      (es : JsMap ℕ) (w : World)
      → IsNodup (keys es)
      → IsEntries w.consumers es
      → IsConsistent s w
      → IsConsistent s (stop_stale es desired w)
  unfolding stop_stale keys
  stop_stale-IsConsistent [] w d h c = c
  stop_stale-IsConsistent ((n, sid) ∷ es) w (out, d) (p, h) c =
      elim (Bool-cases (member n desired)) [
        | inl wanted ↦ rw wanted (stop_stale-IsConsistent es w d h c)
        | inr stale ↦ rw stale (
            stop_stale-IsConsistent es (stop_consumer n sid w) d
              (unfold stop_consumer in IsEntries-delete n w.consumers es c.unique out h)
              (stop_consumer-IsConsistent s n sid w p c))
      ]

  get-stop_stale :
      (es : JsMap ℕ) (w : World) (k : Text)
      → IsNodup (keys es)
      → IsNodup (keys w.consumers)
      → get k (stop_stale es desired w).consumers
        ≡ (if is_stale es desired k then none else get k w.consumers)
  unfolding stop_stale keys stop_consumer member
  get-stop_stale [] w k d u = refl
  get-stop_stale ((n, sid) ∷ es) w k (out, d) u = elim (Bool-cases (member n desired)) [
    | inl wanted ↦ ground (arith, wanted, get-stop_stale es w k d u, text_eq_iff n k)
    | inr stale ↦ ground (
      arith,
      stale,
      out,
      get-delete n k w.consumers u,
      text_eq_iff n k,
      get-stop_stale es (stop_consumer n sid w) k d (delete-IsNodup n w.consumers u),
    )
  ]

module _ (s : Settings) where
  start_missing-IsConsistent :
      (names : List Text) (w : World) → IsConsistent s w → IsConsistent s (start_missing s names w)
  unfolding start_missing
  start_missing-IsConsistent [] w c = c
  start_missing-IsConsistent (n ∷ names) w c = elim (Bool-cases (has n w.consumers)) [
    | inl there ↦ rw there (start_missing-IsConsistent names w c)
    | inr absent ↦ rw absent (
        start_missing-IsConsistent names (consume_function s n w)
          (consume_function-IsConsistent s n w absent c))
  ]

  has-start_missing :
      (names : List Text) (w : World) (k : Text)
      → has k (start_missing s names w).consumers ≡ (has k w.consumers || member k names)
  unfolding start_missing member consume_function subscribe
  has-start_missing [] w k = ground arith
  has-start_missing (n ∷ names) w k = elim (Bool-cases (has n w.consumers)) [
    | inl there ↦ ground (arith, there, has-start_missing names w k, text_eq_iff n k)
    | inr absent ↦ ground (
      arith,
      absent,
      has-start_missing names (consume_function s n w) k,
      has-set n k w.client.next_sid w.consumers,
      text_eq_iff n k,
    )
  ]

  get-start_missing :
      (names : List Text) (w : World) (k : Text) {sid : ℕ}
      → get k w.consumers ≡ some sid
      → get k (start_missing s names w).consumers ≡ some sid
  unfolding start_missing consume_function subscribe
  get-start_missing [] w k g = g
  get-start_missing (n ∷ names) w k {sid} g = elim (Bool-cases (has n w.consumers)) [
    | inl there ↦ ground (arith, there, get-start_missing names w k {sid = sid} g)
    | inr absent ↦ ground (
      arith,
      absent,
      text_eq_iff n k,
      has_of_get k w.consumers {v = sid} g,
      get-set n k w.client.next_sid w.consumers,
      get-start_missing names (consume_function s n w) k {sid = sid},
    )
  ]

-- The listing reads the world and leaves it.
pub world-list_functions : (e : Engine) (w : World) → (list_functions e w).1 ≡ w
unfolding list_functions
world-list_functions e w = ground arith

pub reconcile_steps :
    (e : Engine) (s : Settings) (w : World) (names : List Text)
    → (list_functions e w).0 ≡ ok names
    → reconcile_consumers e s w
      ≡ (ok tt, start_missing s (set_of names) (stop_stale w.consumers (set_of names) w))
unfolding reconcile_consumers
reconcile_steps e s w names h = ground (arith, h, world-list_functions e w)

module _ (e : Engine) (s : Settings) (w : World) (names : List Text)
    (listed : (list_functions e w).0 ≡ ok names) (c : IsConsistent s w) where
  -- If the functions can be listed, `reconcileConsumers` returns, and CONSUMERS and the open
  -- subscriptions stay in step.
  pub reconcile_consumers-IsConsistent :
      ((reconcile_consumers e s w).0 ≡ ok tt) × IsConsistent s (reconcile_consumers e s w).1
  reconcile_consumers-IsConsistent = rw (reconcile_steps e s w names listed) (
    refl,
    start_missing-IsConsistent s (set_of names) _ (
        stop_stale-IsConsistent s (set_of names) w.consumers w c.unique
          (IsEntries-self w.consumers c.unique) c),
  )

  -- Afterwards a name has a consumer exactly if it is the name of a function that is listed.
  pub has-reconcile_consumers :
      (k : Text) → has k (reconcile_consumers e s w).1.consumers ≡ member k names
  unfolding is_some
  has-reconcile_consumers k = rw (reconcile_steps e s w names listed) (
      ground (
        arith,
        has-start_missing s (set_of names) (stop_stale w.consumers (set_of names) w) k,
        has-get k (stop_stale w.consumers (set_of names) w).consumers,
        get-stop_stale s (set_of names) w.consumers w k c.unique c.unique,
        has-get k w.consumers,
        has-keys k w.consumers,
        member-set_of k names,
      ))

  kept_sid :
      (k : Text) {sid : ℕ}
      → get k w.consumers ≡ some sid
      → member k names ≡ true
      → get k (reconcile_consumers e s w).1.consumers ≡ some sid
  kept_sid k {sid} g l = rw (reconcile_steps e s w names listed) (
      get-start_missing s (set_of names) _ k {sid = sid} (
        ground (
          arith,
          get-stop_stale s (set_of names) w.consumers w k c.unique c.unique,
          member-set_of k names,
          g,
          l,
        )))

  -- A function that had a consumer and is still listed keeps its subscription: CONSUMERS has the same
  -- id for it, and the subscription with that id, on the function's own subject, which was open, still
  -- is. CONSUMERS was in step with the open subscriptions.
  pub get-reconcile_consumers :
      (k : Text) {sid : ℕ}
      → get k w.consumers ≡ some sid
      → member k names ≡ true
      → let after = (reconcile_consumers e s w).1 in
        let sub : Subscription = record { sid = sid; subject = exec_subject s k; task = exec k } in
        (get k after.consumers ≡ some sid)
        × Mem sub w.client.open_subs
        × Mem sub after.client.open_subs
  get-reconcile_consumers k {sid} g l =
      let after = (reconcile_consumers e s w).1 in
      let c' = reconcile_consumers-IsConsistent.1 in
      let kept = kept_sid k {sid = sid} g l in
      (
        kept,
        served-Mem s k sid w.client.open_subs c.subjects (ap (get k) c.matching ∙ g),
        served-Mem s k sid after.client.open_subs c'.subjects (ap (get k) c'.matching ∙ kept),
      )
