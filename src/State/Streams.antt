-- ===== src/State/Streams.antt =====
-- When `AppState.new` (runtimes/ts/pkg/state.ts) succeeds.
use litefunctions.Prelude.{◌≡◌, refl, ◌↔◌, Bool, true, [], ◌∷◌, if◌then◌else◌, arith, inl, inr}
use litefunctions.Prelude.Exec.{Result, ok, err, Result-cases}
use litefunctions.Text.{Text, codes, includes, to_lower_case}
use litefunctions.Text.Search.{includes-part}
use litefunctions.Conf.{Settings}
use litefunctions.World.{World}
use litefunctions.State.{Broker, stream_subject, ignore_existing, app_state_new}

-- The stream was added, or the error says, in any case of letters, that its name is in use.
abbrev pub is_there : Result (Unit {0}) → Bool
is_there (ok _) = true
is_there (err x) = includes (codes "name already in use") (to_lower_case x)

-- The second test of the handler adds nothing to the first.
ignore_existing-lem :
    (x : Text) (w : World)
    → ignore_existing x w ≡ (
        if includes (codes "name already in use") (to_lower_case x) then (ok tt, w) else (err x, w))
unfolding ignore_existing
ignore_existing-lem x w =
    ground
      (arith, includes-part (codes "stream ") (codes "name already in use") [] (to_lower_case x))

stream_step :
    (b : Broker) (s : Settings) (w : World)
    → b.connect s.nats_url ≡ ok tt
    → b.manager ≡ ok tt
    → app_state_new b s w ≡ (
        if is_there (b.add_stream s.project (stream_subject s ∷ []))
        then (ok tt, w)
        else (b.add_stream s.project (stream_subject s ∷ []), w))
unfolding app_state_new
stream_step b s w c m = elim (Result-cases (b.add_stream s.project (stream_subject s ∷ []))) [
  | inl (u, added) ↦ rw (c, m, added) refl
  | inr (x, failure) ↦ rw (c, m, failure) (ignore_existing-lem x w)
]

-- `AppState.new` returns exactly if the server is reached, has streams, and the project's stream
-- was added or was there already. It changes nothing else of the runtime's state.
pub app_state_new-ok :
    (b : Broker) (s : Settings) (w : World)
    → (((app_state_new b s w).0 ≡ ok tt) ↔ (
        (b.connect s.nats_url ≡ ok tt)
        × (b.manager ≡ ok tt)
        × (is_there (b.add_stream s.project (stream_subject s ∷ [])) ≡ true)))
      × ((app_state_new b s w).1 ≡ w)
unfolding app_state_new
app_state_new-ok b s w = elim (Result-cases (b.connect s.nats_url)) [
  | inr (x, failure) ↦ ground (arith, failure)
  | inl (u, reached) ↦ elim (Result-cases b.manager) [
    | inr (x, failure) ↦ ground (arith, reached, failure)
    | inl (v, managed) ↦ elim (Result-cases (b.add_stream s.project (stream_subject s ∷ []))) [
      | inl (u, added) ↦ ground (arith, reached, managed, added, stream_step b s w)
      | inr (x, failure) ↦ ground (arith, reached, managed, failure, stream_step b s w)
    ]
  ]
]
