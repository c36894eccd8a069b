-- ===== src/Consumer/Loops/Turns.antt =====
-- One turn of a loop: what it publishes, and what it still owes.
use litefunctions.Prelude.{
  ℕ, ◌≡◌, refl, List, [], ◌∷◌, ◌++◌, map, inl, inr, arith, append-nil, ◌+◌, ◌-◌, ◌≤◌, length,
}
use litefunctions.Prelude.Exec.{Result-cases}
use litefunctions.Text.{Text}
use litefunctions.Text.Utf8.{Bytes}
use litefunctions.Conf.{Settings}
use litefunctions.Value.{View}
use litefunctions.World.{World, Engine, publish}
use litefunctions.Functions.Modules.{call_handle, to_request_like, import_module, cache_module}
use litefunctions.Functions.Modules.Fresh.{IsCurrent}
use litefunctions.Functions.Modules.Loads.{
  Load, resolving, importing, committing, finished, begin, advance,
}
use litefunctions.Functions.Modules.Loads.Interleaved.{IsOf, advance-IsCurrent, begin-IsOf}
use litefunctions.Consumer.{res_subject, request_id}
use litefunctions.Consumer.Code.{IsCurrent-code_of}
use litefunctions.Consumer.Loops.{Round, idle, loading, yielding, Loop, take_message, go_on, turn}

-- The outputs of a call, on the subject of its results.
abbrev pub addressed : Settings → Text → Text → List Bytes → List (Text × Bytes)
addressed s name subject outs = map (λ out. (res_subject s name (request_id subject), out)) outs

module _ (e : Engine) (b : Bytes) (name : Text) where
  -- What a call leads to where the name stands for the code `b`.
  abbrev pub results : Text → View → List Bytes
  results subject payload = (call_handle name (to_request_like e payload) (e.evaluate b)).outputs

module _ (e : Engine) (s : Settings) (b : Bytes) (name : Text) where
  unfoldable pub all_results : List (Text × View) → List (Text × Bytes)
  unfolding to_request_like request_id
  all_results [] = []
  all_results ((subject, payload) ∷ q) =
      addressed s name subject (results e b name subject payload) ++ all_results q

  abbrev pub of_round : Round → List (Text × Bytes)
  of_round idle = []
  of_round (loading subject payload l) = addressed s name subject (results e b name subject payload)
  of_round (yielding subject outs) = addressed s name subject outs

  -- What the loop has still to publish.
  abbrev pub owed : Loop → List (Text × Bytes)
  owed l = of_round l.round ++ all_results l.waiting

-- A load that the loop waits in fits the code that the name stands for.
abbrev pub RoundOf : Engine → Text → Bytes → ℕ → Text → Round → Type 0
RoundOf e name b v n idle = Unit
RoundOf e name b v n (loading subject payload l) = IsOf e name b v (n, l)
RoundOf e name b v n (yielding subject outs) = Unit

client-advance :
    (e : Engine) (n : Text) (l : Load) (w : World) → (advance e n l w).1.client ≡ w.client
unfolding advance import_module cache_module
client-advance e n resolving w = ground arith
client-advance e n (importing p v) w = ground arith
client-advance e n (committing m) w = refl
client-advance e n (finished r) w = refl

-- What a turn publishes.
abbrev pub sent : Settings → Text → Round → List (Text × Bytes)
sent s n idle = []
sent s n (loading subject payload l) = []
sent s n (yielding subject []) = []
sent s n (yielding subject (out ∷ outs)) = addressed s n subject (out ∷ [])

take-RoundOf :
    (e : Engine) (n : Text) (q : List (Text × View)) (w : World) (name : Text) (b : Bytes)
    → IsCurrent e name b w
    → RoundOf e name b w.module_version n (take_message n q w).round
unfolding take_message
take-RoundOf e n [] w name b c = tt
take-RoundOf e n ((subject, payload) ∷ q) w name b c = begin-IsOf e name b w c n

module _ (e : Engine) (s : Settings) (n : Text) (q : List (Text × View)) (w : World) where
  pub turn-client :
      (r : Round)
      → (turn e s n (record { waiting = q; round = r }) w).1.client
        ≡ record w.client { published = w.client.published ++ sent s n r }
  unfolding turn go_on publish
  turn-client idle = rw append-nil
  turn-client (loading subject payload resolving) = rw append-nil (client-advance e n resolving w)
  turn-client (loading subject payload (importing p v)) =
      rw append-nil (client-advance e n (importing p v) w)
  turn-client (loading subject payload (committing m)) =
      rw append-nil (client-advance e n (committing m) w)
  turn-client (loading subject payload (finished r)) = rw append-nil
  turn-client (yielding subject []) = rw append-nil
  turn-client (yielding subject (out ∷ outs)) = refl

  module _ (name : Text) (b : Bytes) (c : IsCurrent e name b w) where
    -- A turn of any loop keeps what the name stands for.
    pub turn-IsCurrent :
        (r : Round)
        → RoundOf e name b w.module_version n r
        → let (l', w') = turn e s n (record { waiting = q; round = r }) w in
          IsCurrent e name b w'
          × RoundOf e name b w.module_version n l'.round
          × (w'.module_version ≡ w.module_version)
    unfolding turn go_on take_message
    turn-IsCurrent idle h = (c, take-RoundOf e n q w name b c, refl)
    turn-IsCurrent (loading subject payload resolving) h =
        advance-IsCurrent e name b w c n resolving h
    turn-IsCurrent (loading subject payload (importing p v)) h =
        advance-IsCurrent e name b w c n (importing p v) h
    turn-IsCurrent (loading subject payload (committing m)) h =
        advance-IsCurrent e name b w c n (committing m) h
    turn-IsCurrent (loading subject payload (finished r)) h = (c, tt, refl)
    turn-IsCurrent (yielding subject []) h = (c, tt, refl)
    turn-IsCurrent (yielding subject (out ∷ outs)) h = (
      IsCurrent-code_of e name b w
          (turn e s n (record { waiting = q; round = yielding subject (out ∷ outs) }) w).1 refl c,
      tt,
      refl,
    )

module _ (e : Engine) (s : Settings) (name : Text) (b : Bytes) (w : World) where
  -- What a turn of the name's loop publishes is what it owed first.
  pub owed-turn :
      (q : List (Text × View)) (r : Round)
      → RoundOf e name b w.module_version name r
      → sent s name r ++ owed e s b name (turn e s name (record { waiting = q; round = r }) w).0
        ≡ owed e s b name (record { waiting = q; round = r })
  unfolding turn go_on take_message all_results
  owed-turn [] idle h = refl
  owed-turn ((subject, payload) ∷ q) idle h = refl
  owed-turn q (loading subject payload resolving) h = refl
  owed-turn q (loading subject payload (importing p v)) h = refl
  owed-turn q (loading subject payload (committing m)) h = refl
  owed-turn q (loading subject payload (finished r)) h = rw (← h refl) refl
  owed-turn q (yielding subject []) h = refl
  owed-turn q (yielding subject (out ∷ outs)) h = refl

-- How many turns a load takes at most.
abbrev pub load_rank : Load → ℕ
load_rank resolving = 3
load_rank (importing p v) = 2
load_rank (committing m) = 1
load_rank (finished r) = 0

load_rank-advance :
    (e : Engine) (n : Text) (l : Load) (w : World) → load_rank (advance e n l w).0 ≤ load_rank l - 1
unfolding advance
load_rank-advance e n resolving w = ground arith
load_rank-advance e n (importing p v) w = elim (Result-cases (import_module e p v w).0) [
  | inl (m, good) ↦ rw good (omega arith)
  | inr (x, bad) ↦ rw bad (omega arith)
]
load_rank-advance e n (committing m) w = omega arith
load_rank-advance e n (finished r) w = omega arith

module _ (e : Engine) (b : Bytes) (name : Text) where
  abbrev pub call_length : Text → View → ℕ
  call_length subject payload = length (results e b name subject payload)

  unfoldable pub calls_rank : List (Text × View) → ℕ
  unfolding to_request_like
  calls_rank [] = 0
  calls_rank ((subject, payload) ∷ q) = 6 + call_length subject payload + calls_rank q

  abbrev pub round_rank : Round → ℕ
  round_rank idle = 0
  round_rank (loading subject payload l) = 2 + load_rank l + call_length subject payload
  round_rank (yielding subject outs) = 1 + length outs

  -- How many turns the loop takes at most until it has done all its calls.
  abbrev pub rank : Loop → ℕ
  rank l = round_rank l.round + calls_rank l.waiting

  begin-rank : (w : World) → load_rank (begin name w) ≤ 3
  unfolding begin
  begin-rank w = ground arith

  pub rank-turn :
      (s : Settings) (w : World) (q : List (Text × View)) (r : Round)
      → RoundOf e name b w.module_version name r
      → rank (turn e s name (record { waiting = q; round = r }) w).0
        ≤ rank (record { waiting = q; round = r }) - 1
  unfolding turn go_on take_message calls_rank
  rank-turn s w [] idle h = omega arith
  rank-turn s w ((subject, payload) ∷ q) idle h = omega (arith, begin-rank w)
  rank-turn s w q (loading subject payload resolving) h =
      omega (arith, load_rank-advance e name resolving w)
  rank-turn s w q (loading subject payload (importing p v)) h =
      omega (arith, load_rank-advance e name (importing p v) w)
  rank-turn s w q (loading subject payload (committing m)) h = omega arith
  rank-turn s w q (loading subject payload (finished r)) h = rw (← h refl) (omega arith)
  rank-turn s w q (yielding subject []) h = omega arith
  rank-turn s w q (yielding subject (out ∷ outs)) h = omega arith
