-- ===== src/Consumer/Loops/Reloading.antt =====
-- The loops of the functions while `syncRuntimeFunctionsDir` (runtimes/ts/pkg/functions.ts) is under
-- way: any loop may run between two of its awaits.
use litefunctions.Prelude.{
  ℕ, suc, ◌≤◌, ◌≡◌, refl, List, [], ◌∷◌, All, arith, inl, inr, Bool-cases, Option-cases,
}
use litefunctions.Prelude.Exec.{Result-cases}
use litefunctions.Text.{Text, text_eq}
use litefunctions.Conf.{Settings}
use litefunctions.JsMap.{get}
use litefunctions.Fs.{FilePath, file_exists}
use litefunctions.Value.{View}
use litefunctions.World.{World, Engine}
use litefunctions.Functions.Files.Segments.{Phase, segment}
use litefunctions.Functions.Modules.{function_path, import_module, cache_module}
use litefunctions.Functions.Modules.Fresh.{IsBounded, imports-import_module}
use litefunctions.Functions.Modules.Loads.{
  Load, resolving, importing, committing, finished, begin, advance,
}
use litefunctions.Functions.Modules.Loads.Interleaved.{fs-import_module, version-import_module}
use litefunctions.Consumer.Loops.{
  Round, idle, loading, yielding, Loop, take_message, go_on, turn, Running, update, Event, arrive,
  run_on, happen,
}

-- The processes side by side, and where the sync waits.
pub record Deploying : Type 0 where
  pub running : Running
  pub phase : Phase

-- What comes next: an event of the loops, or the sync runs on.
pub data Move : Type 0 where
  other : Event → Move
  sync_on : Move

unfoldable pub move : Engine → Settings → FilePath → Move → Deploying → Deploying
unfolding happen segment
move e s source (other a) d = record d { running = happen e s a d.running }
move e s source sync_on d =
    let (p, w) = segment e source d.phase d.running.world in
    record { running = record d.running { world = w }; phase = p }

unfoldable pub moves : Engine → Settings → FilePath → List Move → Deploying → Deploying
unfolding move
moves e s source [] d = d
moves e s source (m ∷ ms) d = moves e s source ms (move e s source m d)

-- How often the sync runs on.
unfoldable pub syncs : List Move → ℕ
syncs [] = 0
syncs (other a ∷ ms) = syncs ms
syncs (sync_on ∷ ms) = suc (syncs ms)

-- A load has read the present version, or an earlier one.
abbrev pub LoadBelow : ℕ → Load → Type 0
LoadBelow v (importing p u) = u ≤ v
LoadBelow v resolving = Unit
LoadBelow v (committing m) = Unit
LoadBelow v (finished r) = Unit

abbrev pub RoundBelow : ℕ → Round → Type 0
RoundBelow v idle = Unit
RoundBelow v (loading subject payload l) = LoadBelow v l
RoundBelow v (yielding subject outs) = Unit

module _ (e : Engine) (n : Text) (w : World) where
  fs-advance : (l : Load) → (advance e n l w).1.fs ≡ w.fs
  unfolding advance cache_module
  fs-advance resolving = ground arith
  fs-advance (importing p v) = fs-import_module e p v w
  fs-advance (committing m) = refl
  fs-advance (finished r) = refl

  version-advance : (l : Load) → (advance e n l w).1.module_version ≡ w.module_version
  unfolding advance cache_module
  version-advance resolving = ground arith
  version-advance (importing p v) = version-import_module e p v w
  version-advance (committing m) = refl
  version-advance (finished r) = refl

  imports-advance :
      (l : Load)
      → LoadBelow w.module_version l
      → IsBounded w
      → All (λ i. i.0.1 ≤ w.module_version) (advance e n l w).1.imports
  unfolding advance cache_module
  imports-advance resolving below h = elim (Bool-cases (file_exists (function_path e n) w.fs)) [
    | inl there ↦ rw there h
    | inr missing ↦ rw missing h
  ]
  imports-advance (importing p v) below h = elim (imports-import_module e n w p v) [
    | inl same ↦ rw same h
    | inr (r, one) ↦ rw one (below, h)
  ]
  imports-advance (committing m) below h = h
  imports-advance (finished r) below h = h

  advance-LoadBelow : (l : Load) → LoadBelow w.module_version (advance e n l w).0
  unfolding advance
  advance-LoadBelow resolving = elim (Bool-cases (file_exists (function_path e n) w.fs)) [
    | inl there ↦ rw there (omega arith)
    | inr missing ↦ rw missing tt
  ]
  advance-LoadBelow (importing p v) = elim (Result-cases (import_module e p v w).0) [
    | inl (m, good) ↦ rw good tt
    | inr (x, bad) ↦ rw bad tt
  ]
  advance-LoadBelow (committing m) = tt
  advance-LoadBelow (finished r) = tt

begin-LoadBelow : (v : ℕ) (n : Text) (w : World) → LoadBelow v (begin n w)
unfolding begin
begin-LoadBelow v n w = elim (Option-cases (get n w.modules)) [
  | inl absent ↦ rw (begin, absent) tt
  | inr (m, hit) ↦ rw (begin, hit) tt
]

take-RoundBelow :
    (v : ℕ) (n : Text) (q : List (Text × View)) (w : World)
    → RoundBelow v (take_message n q w).round
unfolding take_message
take-RoundBelow v n [] w = tt
take-RoundBelow v n ((subject, payload) ∷ q) w = begin-LoadBelow v n w

-- What a turn leaves: the files, the version, and a registry of no later version.
abbrev IsTurned : World → Loop × World → Type 0
IsTurned w (l, w') =
    (w'.fs ≡ w.fs)
    × (w'.module_version ≡ w.module_version)
    × All (λ i. i.0.1 ≤ w.module_version) w'.imports
    × RoundBelow w.module_version l.round

module _ (e : Engine) (s : Settings) (n : Text) (q : List (Text × View)) (w : World) where
  advanced :
      (l : Load) (subject : Text) (payload : View)
      → LoadBelow w.module_version l
      → IsBounded w
      → IsTurned w (
        record { waiting = q; round = loading subject payload (advance e n l w).0 },
        (advance e n l w).1,
      )
  advanced l subject payload below h = (
    fs-advance e n w l,
    version-advance e n w l,
    imports-advance e n w l below h,
    advance-LoadBelow e n w l,
  )

  turn-IsTurned :
      (r : Round)
      → RoundBelow w.module_version r
      → IsBounded w
      → IsTurned w (turn e s n (record { waiting = q; round = r }) w)
  unfolding turn go_on
  turn-IsTurned idle below h = (refl, refl, h, take-RoundBelow w.module_version n q w)
  turn-IsTurned (loading subject payload resolving) below h =
      advanced resolving subject payload below h
  turn-IsTurned (loading subject payload (importing p v)) below h =
      advanced (importing p v) subject payload below h
  turn-IsTurned (loading subject payload (committing m)) below h =
      advanced (committing m) subject payload below h
  turn-IsTurned (loading subject payload (finished r)) below h = (refl, refl, h, tt)
  turn-IsTurned (yielding subject []) below h = (refl, refl, h, tt)
  turn-IsTurned (yielding subject (out ∷ outs)) below h = (refl, refl, h, tt)

-- No import and no load is ahead of the version.
pub record IsSound (r : Running) : Type 0 where
  pub bounded : IsBounded r.world
  pub below : (k : Text) → RoundBelow r.world.module_version (r.loops k).round

update-RoundBelow :
    (v : ℕ) (n : Text) (l : Loop) (loops : Text → Loop)
    → RoundBelow v l.round
    → ((k : Text) → RoundBelow v (loops k).round)
    → (k : Text) → RoundBelow v (update n l loops k).round
update-RoundBelow v n l loops h all k = elim (Bool-cases (text_eq n k)) [
  | inl same ↦ rw same h
  | inr apart ↦ rw apart (all k)
]

pub happen-IsSound :
    (e : Engine) (s : Settings) (a : Event) (r : Running)
    → IsSound r
    → IsSound (happen e s a r) × ((happen e s a r).world.fs ≡ r.world.fs)
unfolding happen
happen-IsSound e s (arrive n subject payload) r h = (
  record {
    bounded = h.bounded;
    below = update-RoundBelow r.world.module_version n _ r.loops (h.below n) h.below;
  },
  refl,
)
happen-IsSound e s (run_on n) r h =
    let l = r.loops n in
    let (files, version, imports, round) =
      turn-IsTurned e s n l.waiting r.world l.round (h.below n) h.bounded in
    (
      record {
        bounded = rw version imports;
        below = rw version (update-RoundBelow r.world.module_version n _ r.loops round h.below);
      },
      files,
    )
