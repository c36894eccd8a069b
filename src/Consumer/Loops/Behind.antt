-- ===== src/Consumer/Loops/Behind.antt =====
-- The rest of a refresh behind its sync of the files (`reconcileConsumers` of
-- runtimes/ts/pkg/consumer.ts), among the loops of the functions: the results of the calls.
use litefunctions.Prelude.{
  ℕ, ◌≡◌, ◌≢◌, refl, sym, ap, ◌∙◌, Bool, true, false, List, [], ◌∷◌, ◌++◌, All, inl, inr,
  Bool-cases, some, append-nil,
}
use litefunctions.Prelude.Exec.{Result-cases}
use litefunctions.Text.{Text, codes}
use litefunctions.Text.Split.{Lacks}
use litefunctions.Text.Utf8.{Bytes}
use litefunctions.JsMap.{JsMap, has, member, set_of}
use litefunctions.Conf.{Settings}
use litefunctions.Fs.{FilePath, file, find_node, parent, file_exists, readdir}
use litefunctions.World.{World, Engine, subscribe, unsubscribe}
use litefunctions.Functions.Repo.{runtime_functions_path}
use litefunctions.Functions.Files.Names.{IsFunctionName}
use litefunctions.Functions.Files.Mirror.{IsMade}
use litefunctions.Functions.Files.Segments.{making, clearing}
use litefunctions.Consumer.{stop_stale, stop_consumer, consume_function}
use litefunctions.Consumer.Code.{code_of, Code, IsCurrent-code_of, code_of-stop_stale}
use litefunctions.Consumer.Stages.{
  Stage, looking, fetching, resetting_main, resetting_master, cloning, syncing, seeking, listing,
  stopping, starting, ended, stage_on,
}
use litefunctions.Consumer.Loops.{Event}
use litefunctions.Consumer.Loops.Turns.{all_results, owed}
use litefunctions.Consumer.Loops.Results.{
  results_for, arrived, name_of, IsServing, happen-IsServing, account,
}
use litefunctions.Consumer.Loops.Courses.{account-cons}
use litefunctions.Consumer.Loops.Reloading.{Deploying, Move, other, sync_on, move, moves, IsSound}
use litefunctions.Consumer.Loops.Reloaded.{is_unread, clearing-IsServing}
use litefunctions.Consumer.Loops.Refreshing.{Refreshing, refresh_move, refresh_moves}

-- The stages behind the sync of the files.
abbrev pub is_behind : Stage → Bool
is_behind looking = false
is_behind fetching = false
is_behind resetting_main = false
is_behind resetting_master = false
is_behind cloning = false
is_behind (syncing p) = false
is_behind seeking = true
is_behind listing = true
is_behind (stopping names) = true
is_behind (starting names) = true
is_behind (ended r) = true

-- What a stage behind the sync leaves alone: the code, and what was published.
abbrev IsLeft : World → Stage × World → Type 0
IsLeft w (t, w') =
    (is_behind t ≡ true) × (code_of w' ≡ code_of w) × (w'.client.published ≡ w.client.published)

published-stop_stale :
    (es : JsMap ℕ) (desired : List Text) (w : World)
    → (stop_stale es desired w).client.published ≡ w.client.published
unfolding stop_stale stop_consumer unsubscribe
published-stop_stale [] desired w = refl
published-stop_stale ((n, sid) ∷ es) desired w = elim (Bool-cases (member n desired)) [
  | inl wanted ↦ rw (stop_stale, wanted) (published-stop_stale es desired w)
  | inr stale ↦ rw (stop_stale, stale) (published-stop_stale es desired (stop_consumer n sid w))
]

stage_on-IsLeft :
    (e : Engine) (s : Settings) (t : Stage) (w : World)
    → is_behind t ≡ true
    → IsLeft w (stage_on e s t w)
unfolding stage_on consume_function subscribe
stage_on-IsLeft e s looking w h = absurd (cc h)
stage_on-IsLeft e s fetching w h = absurd (cc h)
stage_on-IsLeft e s resetting_main w h = absurd (cc h)
stage_on-IsLeft e s resetting_master w h = absurd (cc h)
stage_on-IsLeft e s cloning w h = absurd (cc h)
stage_on-IsLeft e s (syncing p) w h = absurd (cc h)
stage_on-IsLeft e s seeking w h = elim (Bool-cases (file_exists (runtime_functions_path e) w.fs)) [
  | inl there ↦ rw there (refl, refl, refl)
  | inr missing ↦ rw missing (refl, refl, refl)
]
stage_on-IsLeft e s listing w h = elim (Result-cases (readdir (runtime_functions_path e) w.fs)) [
  | inl (entries, good) ↦ rw good (refl, refl, refl)
  | inr (x, bad) ↦ rw bad (refl, refl, refl)
]
stage_on-IsLeft e s (stopping names) w h = (
  refl,
  code_of-stop_stale w.consumers (set_of names) w,
  published-stop_stale w.consumers (set_of names) w,
)
stage_on-IsLeft e s (starting []) w h = (refl, refl, refl)
stage_on-IsLeft e s (starting (name ∷ names)) w h = elim (Bool-cases (has name w.consumers)) [
  | inl there ↦ rw there (refl, refl, refl)
  | inr missing ↦ rw missing (refl, refl, refl)
]
stage_on-IsLeft e s (ended r) w h = (refl, refl, refl)

-- The events of the loops among the moves.
unfoldable pub heard : List Move → List Event
heard [] = []
heard (other a ∷ ms) = a ∷ heard ms
heard (sync_on ∷ ms) = heard ms

module _ (e : Engine) (s : Settings) (name : Text) (b : Bytes)
    (project : Lacks b'.' s.project) where
  stage-IsServing :
      (d : Refreshing)
      → is_behind d.stage ≡ true
      → IsServing e name b d.running
      → IsServing e name b (refresh_move e s sync_on d).running
  unfolding refresh_move
  stage-IsServing d behind (c, h) =
      let w = d.running.world in
      let (_, code, _) = stage_on-IsLeft e s d.stage w behind in
      (
        IsCurrent-code_of e name b w (stage_on e s d.stage w).1 code c,
        rw (ap (λ (k : Code). k.module_version) code) h,
      )

  behind-account :
      (ms : List Move) (d : Refreshing)
      → is_behind d.stage ≡ true
      → IsServing e name b d.running
      → All (λ a. Lacks b'.' (name_of a)) (heard ms)
      → account e s name b project (refresh_moves e s ms d).running
        ≡ account e s name b project d.running ++ all_results e s b name (arrived name (heard ms))
  unfolding refresh_moves refresh_move heard
  behind-account [] d behind h names = unfold arrived all_results in sym (append-nil _)
  behind-account (other a ∷ ms) d behind h (first, names) =
      behind-account ms (refresh_move e s (other a) d) behind
        (happen-IsServing e s name b a d.running h) names
      ∙ account-cons e s name b project a (heard ms) d.running h first
  behind-account (sync_on ∷ ms) d behind h names =
      let (on, _, published) = stage_on-IsLeft e s d.stage d.running.world behind in
      let more = all_results e s b name (arrived name (heard ms)) in
      behind-account ms (refresh_move e s sync_on d) on (stage-IsServing d behind h) names
      ∙ ap (λ p. (results_for name p ++ owed e s b name (d.running.loops name)) ++ more) published

module _ (e : Engine) (s : Settings) (source : FilePath) (ms : List Move) (d : Deploying) {n : ℕ}
    (sound : IsSound d.running) (begins : d.phase ≡ making)
    (copied : (moves e s source ms d).phase ≡ clearing n)
    (apart : source ≢ runtime_functions_path e) (outside : parent source ≢ runtime_functions_path e)
    (made : IsMade (runtime_functions_path e) d.running.world.fs) where
  -- A reload under traffic. Let a sync have run on, the loops of the functions in between, up to the
  -- clearing of the cache. Just then the function's loop must wait for a message, or be at the look for
  -- the function's file, or between the outputs of a call: a call of it that has found the old module
  -- in the cache, has read the version, or has its module or an error in hand, is left out, since it
  -- may give the old code's results, or put the old module back into the cache. From the clearing on,
  -- whatever arrives, and however the loops and the rest of the refresh take turns, what is published
  -- for the function, and behind it what its loop has still to publish, is what was published and owed
  -- at the clearing, and behind that the results of each message that arrives later, in the order of
  -- arrival. What was owed are the outputs that are left of a call that was at its outputs, and then
  -- the results of each message whose call had not got beyond the look for the file. All results but
  -- those outputs are those of the code that the source held when the sync began. The function's name
  -- is proper, its file is in the source, the runtime's folder is made, the two folders lie apart, no
  -- import and no load is ahead of the version, and neither the project nor a function's name has a
  -- dot.
  pub reloaded-results :
      (name : Text) (b : Bytes) (project : Lacks b'.' s.project) (rest : List Move)
      → IsFunctionName name
      → file_exists source d.running.world.fs ≡ true
      → find_node (source ++ (name ++ codes ".ts") ∷ []) d.running.world.fs ≡ some (file b)
      → is_unread ((moves e s source ms d).running.loops name).round ≡ true
      → All (λ a. Lacks b'.' (name_of a)) (heard rest)
      → let live = (move e s source sync_on (moves e s source ms d)).running in
        let after = (refresh_moves e s rest (record { running = live; stage = seeking })).running in
        results_for name after.world.client.published ++ owed e s b name (after.loops name)
        ≡ (results_for name live.world.client.published ++ owed e s b name (live.loops name))
          ++ all_results e s b name (arrived name (heard rest))
  reloaded-results name b project rest f there content unread names =
      behind-account e s name b project rest
        (record {
          running = (move e s source sync_on (moves e s source ms d)).running;
          stage = seeking;
        })
        refl
        (clearing-IsServing e s source ms d sound begins copied apart outside made name b f there
          content unread)
        names
