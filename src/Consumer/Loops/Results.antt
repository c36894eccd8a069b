-- ===== src/Consumer/Loops/Results.antt =====
-- Any course of events on the loops of the functions: what is published for a function.
use litefunctions.Prelude.{
  ℕ, subst, ◌+◌, ◌≡◌, refl, sym, ap, ◌∙◌, List, [], ◌∷◌, ◌++◌, if◌then◌else◌, arith, inl, inr,
  Bool-cases, append-nil, append_assoc, get_elem?,
}
use litefunctions.Text.{Text, text_eq, split, codes}
use litefunctions.Text.Equality.{text_eq_iff, text_eq_refl}
use litefunctions.Text.Split.{Lacks, split-append}
use litefunctions.Text.Utf8.{Bytes}
use litefunctions.Conf.{Settings}
use litefunctions.Value.{View}
use litefunctions.World.{Engine, Client}
use litefunctions.Functions.Modules.Fresh.{IsCurrent}
use litefunctions.Consumer.{res_subject, request_id, or_empty}
use litefunctions.Consumer.Loops.{
  Round, idle, loading, yielding, Loop, turn, Running, update, Event, arrive, run_on, happen,
}
use litefunctions.Consumer.Loops.Turns.{
  RoundOf, addressed, results, all_results, of_round, owed, sent, turn-client, turn-IsCurrent,
  owed-turn,
}

-- The function's name in the subject of a result.
unfoldable pub function_of : Text → Text
unfolding split
function_of subject = or_empty (get_elem? (split b'.' subject) 1)

-- The messages that carry results of the function.
unfoldable pub results_for : Text → List (Text × Bytes) → List (Text × Bytes)
unfolding function_of text_eq
results_for name [] = []
results_for name (m ∷ ms) =
    let rest = results_for name ms in if text_eq (function_of m.0) name then m ∷ rest else rest

-- The messages that arrive for the function, in order.
unfoldable pub arrived : Text → List Event → List (Text × View)
unfolding text_eq
arrived name [] = []
arrived name (arrive n subject payload ∷ events) =
    let rest = arrived name events in if text_eq n name then (subject, payload) ∷ rest else rest
arrived name (run_on n ∷ events) = arrived name events

-- How often the loop of the function runs on.
unfoldable pub turns : Text → List Event → ℕ
unfolding text_eq
turns name [] = 0
turns name (arrive n subject payload ∷ events) = turns name events
turns name (run_on n ∷ events) = (if text_eq n name then 1 else 0) + turns name events

abbrev pub name_of : Event → Text
name_of (arrive n subject payload) = n
name_of (run_on n) = n

function_of-res_subject :
    (s : Settings) (n req_id : Text)
    → Lacks b'.' s.project
    → Lacks b'.' n
    → function_of (res_subject s n req_id) ≡ n
unfolding function_of
function_of-res_subject s n req_id p h =
    rw (split-append b'.' s.project (n ++ (codes ".res.ts." ++ req_id)) p)
      (rw (split-append b'.' n (codes "res.ts." ++ req_id) h) refl)

results_for-append :
    (name : Text) (ms ns : List (Text × Bytes))
    → results_for name (ms ++ ns) ≡ results_for name ms ++ results_for name ns
unfolding results_for
results_for-append name [] ns = refl
results_for-append name (m ∷ ms) ns = elim (Bool-cases (text_eq (function_of m.0) name)) [
  | inl same ↦ rw (same) (ap (λ l. m ∷ l) (results_for-append name ms ns))
  | inr other ↦ rw (other) (results_for-append name ms ns)
]

module _ (s : Settings) (project : Lacks b'.' s.project) where
  -- What a loop sends is for its own function.
  results_for-sent :
      (name n : Text) (r : Round)
      → Lacks b'.' n
      → results_for name (sent s n r) ≡ (if text_eq n name then sent s n r else [])
  unfolding results_for
  results_for-sent name n idle h = ground arith
  results_for-sent name n (loading subject payload l) h = ground arith
  results_for-sent name n (yielding subject []) h = ground arith
  results_for-sent name n (yielding subject (out ∷ outs)) h =
      rw (function_of-res_subject s n (request_id subject) project h) refl

pub all_results-append :
    (e : Engine) (s : Settings) (b : Bytes) (name : Text) (q q' : List (Text × View))
    → all_results e s b name (q ++ q') ≡ all_results e s b name q ++ all_results e s b name q'
unfolding all_results
all_results-append e s b name [] q' = refl
all_results-append e s b name ((subject, payload) ∷ q) q' =
    ap (◌++◌ (addressed s name subject (results e b name subject payload)))
      (all_results-append e s b name q q')
    ∙ sym (append_assoc (addressed s name subject (results e b name subject payload)) _ _)

-- The name stands for the code `b`, and no loop has another code in hand.
abbrev pub IsServing : Engine → Text → Bytes → Running → Type 0
IsServing e name b r =
    IsCurrent e name b r.world
    × ((k : Text) → RoundOf e name b r.world.module_version k (r.loops k).round)

module _ (e : Engine) (s : Settings) (name : Text) (b : Bytes) where
  update-RoundOf :
      (v : ℕ) (n : Text) (l : Loop) (loops : Text → Loop)
      → RoundOf e name b v n l.round
      → ((k : Text) → RoundOf e name b v k (loops k).round)
      → (k : Text) → RoundOf e name b v k (update n l loops k).round
  update-RoundOf v n l loops h all k = elim (Bool-cases (text_eq n k)) [
    | inl same ↦ rw same (subst (λ x. RoundOf e name b v x l.round) ((text_eq_iff n k).0 same) h)
    | inr other ↦ rw other (all k)
  ]

  pub happen-IsServing :
      (a : Event) (r : Running) → IsServing e name b r → IsServing e name b (happen e s a r)
  unfolding happen
  happen-IsServing (arrive n subject payload) r (c, h) =
      (c, update-RoundOf r.world.module_version n _ r.loops (h n) h)
  happen-IsServing (run_on n) r (c, h) =
      let (c', h', v) =
        turn-IsCurrent e s n (r.loops n).waiting r.world name b c (r.loops n).round (h n) in
      (c', rw v (update-RoundOf r.world.module_version n _ r.loops h' h))

module _ (e : Engine) (s : Settings) (name : Text) (b : Bytes)
    (project : Lacks b'.' s.project) where
  -- What is published for the function, and what its loop owes behind it.
  abbrev pub account : Running → List (Text × Bytes)
  account r = results_for name r.world.client.published ++ owed e s b name (r.loops name)

  -- What is published for the function after a turn of a loop.
  results_for-turn :
      (n : Text) (r : Running)
      → Lacks b'.' n
      → results_for name (turn e s n (r.loops n) r.world).1.client.published
        ≡ results_for name r.world.client.published
          ++ (if text_eq n name then sent s n (r.loops n).round else [])
  results_for-turn n r lacks =
      let l = r.loops n in
      ap (λ (x : Client). results_for name x.published)
        (turn-client e s n l.waiting r.world l.round)
      ∙ results_for-append name r.world.client.published (sent s n l.round)
      ∙ ap (◌++◌ (results_for name r.world.client.published))
          (results_for-sent s project name n l.round lacks)

  account_own :
      (r : Running)
      → IsServing e name b r
      → Lacks b'.' name
      → account (happen e s (run_on name) r) ≡ account r
  unfolding happen
  account_own r (c, h) lacks =
      let l = r.loops name in
      rw (results_for-turn name r lacks) (
        rw (text_eq_refl name) (
          append_assoc (results_for name r.world.client.published) (sent s name l.round) _
          ∙ ap (◌++◌ (results_for name r.world.client.published))
              (owed-turn e s name b r.world l.waiting l.round (h name))))

  account-run_on :
      (n : Text) (r : Running)
      → IsServing e name b r
      → Lacks b'.' n
      → account (happen e s (run_on n) r) ≡ account r
  unfolding happen
  account-run_on n r h lacks = elim (Bool-cases (text_eq n name)) [
    | inl same ↦
        let is = (text_eq_iff n name).0 same in
        subst (λ k. account (happen e s (run_on k) r) ≡ account r) (sym is)
          (account_own r h (subst (Lacks b'.') is lacks))
    | inr other ↦
        rw (results_for-turn n r lacks)
          (rw other (rw (append-nil (results_for name r.world.client.published)) refl))
  ]

  account_arrived :
      (subject : Text) (payload : View) (r : Running)
      → account (happen e s (arrive name subject payload) r)
        ≡ account r ++ all_results e s b name ((subject, payload) ∷ [])
  unfolding happen
  account_arrived subject payload r =
      let l = r.loops name in
      let now = of_round e s b name l.round in
      let later = all_results e s b name ((subject, payload) ∷ []) in
      rw (text_eq_refl name) (
        ap (◌++◌ (results_for name r.world.client.published)) (
          ap (◌++◌ now) (all_results-append e s b name l.waiting ((subject, payload) ∷ []))
          ∙ sym (append_assoc now (all_results e s b name l.waiting) later))
        ∙ sym (append_assoc (results_for name r.world.client.published) _ later))

  -- An event leaves the account as it is, but for a message that arrives for the function.
  pub account-happen :
      (a : Event) (r : Running)
      → IsServing e name b r
      → Lacks b'.' (name_of a)
      → account (happen e s a r) ≡ account r ++ all_results e s b name (arrived name (a ∷ []))
  unfolding arrived all_results
  account-happen (run_on n) r h lacks = account-run_on n r h lacks ∙ sym (append-nil (account r))
  account-happen (arrive n subject payload) r h lacks = elim (Bool-cases (text_eq n name)) [
    | inr other ↦ rw other (unfold happen in rw other (sym (append-nil (account r))))
    | inl same ↦ rw same (
        subst
          (λ k.
            account (happen e s (arrive k subject payload) r)
            ≡ account r ++ all_results e s b name ((subject, payload) ∷ []))
          (sym ((text_eq_iff n name).0 same)) (account_arrived subject payload r))
  ]
