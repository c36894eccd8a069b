-- ===== src/Consumer/Loops/Refreshing.antt =====
-- A round of the hook's loop (`watchTSHook` of runtimes/ts/pkg/consumer.ts) under way while the loops
-- of the functions run.
use litefunctions.Prelude.{
  ℕ, ◌-◌, ◌≤◌, ◌≡◌, refl, sym, ap, ◌∙◌, subst, List, [], ◌∷◌, ◌++◌, arith, some, ◌&&◌, ◌≢◌,
}
use litefunctions.Prelude.Exec.{Result, ok, ◌>>◌, continue}
use litefunctions.Text.{Text, codes, is_some}
use litefunctions.Conf.{Settings}
use litefunctions.JsMap.{has}
use litefunctions.Fs.{folder, stat, parent, find_node}
use litefunctions.Value.{View}
use litefunctions.World.{World, Engine, publish}
use litefunctions.Functions.Repo.{repo_functions_path, runtime_functions_path, sync_repo}
use litefunctions.Functions.Files.{is_stem, sync_repo_and_reload}
use litefunctions.Functions.Files.Mirror.{IsMade}
use litefunctions.Functions.Files.Plain.{IsPlain}
use litefunctions.Functions.Modules.{import_module, cache_module}
use litefunctions.Functions.Modules.Loads.{
  Load, resolving, importing, committing, finished, advance,
}
use litefunctions.Consumer.{reconcile_consumers, refresh}
use litefunctions.Consumer.Consistent.{IsConsistent}
use litefunctions.Consumer.Refresh.{IsConsistent-IsQuiet}
use litefunctions.Consumer.Deploy.{deploy-returns, refresh-deploys}
use litefunctions.Consumer.Frames.{IsAlike, IsAlike-refl, IsAlike-trans}
use litefunctions.Consumer.Stages.{
  Stage, looking, ended, stage_on, still, still-stage_on, still-Respects,
}
use litefunctions.Consumer.Stages.Ends.{
  stages_left, stages_left-stage_on, stages_left-IsAlike, none-left,
}
use litefunctions.Consumer.Loops.{
  Round, idle, loading, yielding, turn, Running, Event, arrive, run_on, happen, go_on,
}
use litefunctions.Consumer.Loops.Reloading.{Move, other, sync_on, syncs}

-- The processes side by side, and where the hook's round waits.
pub record Refreshing : Type 0 where
  pub running : Running
  pub stage : Stage

-- An event of the loops, or the hook's round runs on.
unfoldable pub refresh_move : Engine → Settings → Move → Refreshing → Refreshing
unfolding happen stage_on
refresh_move e s (other a) d = record d { running = happen e s a d.running }
refresh_move e s sync_on d =
    let (t, w) = stage_on e s d.stage d.running.world in
    record { running = record d.running { world = w }; stage = t }

unfoldable pub refresh_moves : Engine → Settings → List Move → Refreshing → Refreshing
unfolding refresh_move
refresh_moves e s [] d = d
refresh_moves e s (m ∷ ms) d = refresh_moves e s ms (refresh_move e s m d)

module _ (e : Engine) (n : Text) (w : World) where
  advance-IsAlike : (l : Load) → IsAlike w (advance e n l w).1
  unfolding advance import_module cache_module
  advance-IsAlike resolving = record {
    fs = ground arith;
    subs = ground arith;
    sids = ground arith;
    consumers = ground arith;
  }
  advance-IsAlike (importing p v) = record {
    fs = ground arith;
    subs = ground arith;
    sids = ground arith;
    consumers = ground arith;
  }
  advance-IsAlike (committing m) = record { fs = refl; subs = refl; sids = refl; consumers = refl }
  advance-IsAlike (finished r) = IsAlike-refl w

module _ (e : Engine) (s : Settings) where
  turn-IsAlike :
      (n : Text) (q : List (Text × View)) (r : Round) (w : World)
      → IsAlike w (turn e s n (record { waiting = q; round = r }) w).1
  unfolding turn go_on publish
  turn-IsAlike n q idle w = IsAlike-refl w
  turn-IsAlike n q (loading subject payload resolving) w = advance-IsAlike e n w resolving
  turn-IsAlike n q (loading subject payload (importing p v)) w =
      advance-IsAlike e n w (importing p v)
  turn-IsAlike n q (loading subject payload (committing m)) w = advance-IsAlike e n w (committing m)
  turn-IsAlike n q (loading subject payload (finished r)) w = IsAlike-refl w
  turn-IsAlike n q (yielding subject []) w = IsAlike-refl w
  turn-IsAlike n q (yielding subject (out ∷ outs)) w = record {
    fs = refl;
    subs = refl;
    sids = refl;
    consumers = refl;
  }

  happen-IsAlike : (a : Event) (r : Running) → IsAlike r.world (happen e s a r).world
  unfolding happen
  happen-IsAlike (arrive n subject payload) r = IsAlike-refl r.world
  happen-IsAlike (run_on n) r = turn-IsAlike n (r.loops n).waiting (r.loops n).round r.world

  abbrev pub outcome_of : Refreshing → Result (Unit {0}) × World
  outcome_of d = still e s d.stage d.running.world

  refresh_moves-outcome_of :
      (ms : List Move) (d : Refreshing)
      → let (r, w) = outcome_of d in
        let (r', w') = outcome_of (refresh_moves e s ms d) in (r' ≡ r) × IsAlike w w'
  unfolding refresh_moves
  refresh_moves-outcome_of [] d = (refl, IsAlike-refl _)
  refresh_moves-outcome_of (other a ∷ ms) d =
      let d1 = refresh_move e s (other a) d in
      let (same, alike) = refresh_moves-outcome_of ms d1 in
      let (same', alike') =
        still-Respects e s d.stage d.running.world d1.running.world (happen-IsAlike a d.running) in
      (same ∙ same', IsAlike-trans (outcome_of d).1 (outcome_of d1).1 _ alike' alike)
  refresh_moves-outcome_of (sync_on ∷ ms) d =
      let d1 = refresh_move e s sync_on d in
      let now = still-stage_on e s d.stage d.running.world in
      subst
        (λ (o : Result (Unit {0}) × World).
          let (r', w') = outcome_of (refresh_moves e s ms d1) in (r' ≡ o.0) × IsAlike o.1 w')
        now (refresh_moves-outcome_of ms d1)

  stages_left-refresh_moves :
      (ms : List Move) (d : Refreshing)
      → let d' = refresh_moves e s ms d in
        stages_left e s d'.stage d'.running.world
        ≤ stages_left e s d.stage d.running.world - syncs ms
  unfolding refresh_moves syncs
  stages_left-refresh_moves [] d = omega arith
  stages_left-refresh_moves (other a ∷ ms) d =
      let d1 = refresh_move e s (other a) d in
      let same =
        stages_left-IsAlike e s d.stage d.running.world d1.running.world
          (happen-IsAlike a d.running) in
      rw same at (stages_left-refresh_moves ms d1)
  stages_left-refresh_moves (sync_on ∷ ms) d = omega (
    arith,
    stages_left-refresh_moves ms (refresh_move e s sync_on d),
    stages_left-stage_on e s d.stage d.running.world,
  )

  -- The loops of the functions neither hold up nor disturb a refresh. However they run between its
  -- awaits, and whatever arrives, once the hook's round has run on as often as it has stages to come,
  -- it has come to its end. It has then returned, or failed with the error, as the refresh as a whole
  -- does with nothing in between, from where it began, and the files, CONSUMERS and the open
  -- subscriptions are those that it leaves.
  pub refresh_moves-refresh :
      (ms : List Move) (d : Refreshing)
      → d.stage ≡ looking
      → stages_left e s looking d.running.world ≤ syncs ms
      → let d' = refresh_moves e s ms d in
        (d'.stage ≡ ended ((sync_repo_and_reload e s >> reconcile_consumers e s) d.running.world).0)
        × IsAlike (refresh e s d.running.world) d'.running.world
  unfolding refresh still
  refresh_moves-refresh ms d begins enough =
      let d' = refresh_moves e s ms d in
      let few : stages_left e s d'.stage d'.running.world
          ≤ stages_left e s looking d.running.world - syncs ms =
        subst
          (λ t.
            stages_left e s d'.stage d'.running.world
            ≤ stages_left e s t d.running.world - syncs ms)
          begins (stages_left-refresh_moves ms d) in
      let (r, at_end) = none-left e s d'.stage d'.running.world (omega (arith, few)) in
      let (same, alike) = refresh_moves-outcome_of ms d in
      let from = ap (λ t. still e s t d.running.world) begins in
      let upto = ap (λ t. still e s t d'.running.world) at_end in
      (
        at_end ∙ ap ended (sym (ap (λ o. o.0) upto) ∙ same ∙ ap (λ o. o.0) from),
        subst (λ (o : Result (Unit {0}) × World). IsAlike (refresh e s d.running.world) o.1) upto
            (subst (λ (o : Result (Unit {0}) × World). IsAlike o.1 (outcome_of d').1) from alike),
      )

  -- A deployment under traffic. Where git brings the repository up to date, and whatever the loops of
  -- the functions do between the awaits of the hook's round, once it has run on as often as it has
  -- stages to come it has returned: a name has a consumer exactly if it is a function's name and the
  -- repository holds its file, and CONSUMERS is in step with the open subscriptions. The runtime's
  -- folder is made, the repository's folder of functions is another one outside of it, and no function
  -- file's name is that of a folder in the two.
  pub refresh_moves-deploys :
      (ms : List Move) (d : Refreshing) (k : Text) {w1 : World}
      → d.stage ≡ looking
      → stages_left e s looking d.running.world ≤ syncs ms
      → sync_repo e s d.running.world ≡ (ok tt, w1)
      → repo_functions_path s ≢ runtime_functions_path e
      → parent (repo_functions_path s) ≢ runtime_functions_path e
      → IsMade (runtime_functions_path e) w1.fs
      → IsPlain (runtime_functions_path e) w1.fs
      → IsPlain (repo_functions_path s) w1.fs
      → stat (repo_functions_path s) w1.fs ≡ some folder
      → IsConsistent s d.running.world
      → let d' = refresh_moves e s ms d in
        (d'.stage ≡ ended (ok tt))
        × (has k d'.running.world.consumers ≡ (
            is_stem k
            && is_some (find_node (repo_functions_path s ++ (k ++ codes ".ts") ∷ []) w1.fs)))
        × IsConsistent s d'.running.world
  refresh_moves-deploys ms d k {w1} begins enough pulled apart outside made plain files is_folder
        c =
      let w = d.running.world in
      let d' = refresh_moves e s ms d in
      let (at_end, alike) = refresh_moves-refresh ms d begins enough in
      let (n, w2, w3, reloaded, done, _) =
        deploy-returns e s w k {w1 = w1} pulled apart outside made plain files is_folder c in
      let (named, consistent) =
        refresh-deploys e s w k {w1 = w1} pulled apart outside made plain files is_folder c in
      let returns : (sync_repo_and_reload e s >> reconcile_consumers e s) w ≡ (ok tt, w3) =
        ap (λ (r : Result ℕ × World). continue (λ _. reconcile_consumers e s) r.0 r.1) reloaded
        ∙ done in
      (
        at_end ∙ ap (λ (r : Result (Unit {0}) × World). ended r.0) returns,
        ap (has k) alike.consumers ∙ named,
        IsConsistent-IsQuiet s (refresh e s w) d'.running.world
            (record { subs = alike.subs; sids = alike.sids; consumers = alike.consumers })
            consistent,
      )
