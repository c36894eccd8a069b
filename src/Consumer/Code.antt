-- ===== src/Consumer/Code.antt =====
-- The part of the state that decides which code a name stands for: a reconciliation
-- (runtimes/ts/pkg/consumer.ts) leaves it alone, and a message only loads.
use litefunctions.Prelude.{◌≡◌, refl, ap, ◌∙◌, List, [], ◌∷◌, inl, inr, Bool-cases, ℕ}
use litefunctions.Prelude.Exec.{Result, Result-cases}
use litefunctions.Text.{Text}
use litefunctions.Text.Utf8.{Bytes}
use litefunctions.JsMap.{JsMap, has, member, set_of}
use litefunctions.Conf.{Settings}
use litefunctions.Fs.{FilePath, Fs}
use litefunctions.Value.{View}
use litefunctions.World.{World, Engine, LoadedModule}
use litefunctions.Functions.Files.{list_functions}
use litefunctions.Functions.Modules.{load_module, invoke_module}
use litefunctions.Functions.Modules.Fresh.{IsCurrent, load_module-IsCurrent}
use litefunctions.Consumer.{
  consume_function, stop_consumer, stop_stale, start_missing, reconcile_consumers, receive,
}
use litefunctions.Consumer.Reconcile.{reconcile_steps}
use litefunctions.Consumer.Refresh.{reconcile_unlisted}

-- The files, the cache, the version and the engine's registry.
pub record Code : Type 0 where
  pub fs : Fs
  pub modules : JsMap LoadedModule
  pub module_version : ℕ
  pub imports : List ((FilePath × ℕ) × Result LoadedModule)

abbrev pub code_of : World → Code
code_of w = record {
  fs = w.fs;
  modules = w.modules;
  module_version = w.module_version;
  imports = w.imports;
}

pub IsCurrent-code_of :
    (e : Engine) (name : Text) (b : Bytes) (w u : World)
    → code_of u ≡ code_of w
    → IsCurrent e name b w
    → IsCurrent e name b u
IsCurrent-code_of e name b w u same c =
    let files = ap (λ (k : Code). k.fs) same in
    let mods = ap (λ (k : Code). k.modules) same in
    let version = ap (λ (k : Code). k.module_version) same in
    let imports = ap (λ (k : Code). k.imports) same in
    record {
      content = rw files c.content;
      cached = rw mods c.cached;
      registered = rw (version, imports) c.registered;
    }

pub code_of-stop_stale :
    (es : JsMap ℕ) (desired : List Text) (w : World) → code_of (stop_stale es desired w) ≡ code_of w
unfolding stop_stale stop_consumer
code_of-stop_stale [] desired w = refl
code_of-stop_stale ((n, sid) ∷ es) desired w = elim (Bool-cases (member n desired)) [
  | inl wanted ↦ rw (stop_stale, wanted) (code_of-stop_stale es desired w)
  | inr stale ↦ rw (stop_stale, stale) (code_of-stop_stale es desired (stop_consumer n sid w))
]

code_of-start_missing :
    (s : Settings) (names : List Text) (w : World) → code_of (start_missing s names w) ≡ code_of w
unfolding start_missing consume_function
code_of-start_missing s [] w = refl
code_of-start_missing s (n ∷ names) w = elim (Bool-cases (has n w.consumers)) [
  | inl there ↦ rw (start_missing, there) (code_of-start_missing s names w)
  | inr absent ↦ rw (start_missing, absent) (code_of-start_missing s names (consume_function s n w))
]

pub code_of-reconcile_consumers :
    (e : Engine) (s : Settings) (w : World) → code_of (reconcile_consumers e s w).1 ≡ code_of w
code_of-reconcile_consumers e s w = elim (Result-cases (list_functions e w).0) [
  | inl (names, listed) ↦
      rw (reconcile_steps e s w names listed)
        (code_of-start_missing s (set_of names) _ ∙ code_of-stop_stale w.consumers (set_of names) w)
  | inr (x, failure) ↦ rw (reconcile_unlisted e s w failure) refl
]

pub receive-IsCurrent :
    (e : Engine) (s : Settings) (n subject : Text) (payload : View) (name : Text) (b : Bytes)
    (w : World)
    → IsCurrent e name b w
    → IsCurrent e name b (receive e s n subject payload w)
unfolding receive invoke_module
receive-IsCurrent e s n subject payload name b w c =
    IsCurrent-code_of e name b (load_module e n w).1 (receive e s n subject payload w) refl
      (load_module-IsCurrent e n name b w c)
