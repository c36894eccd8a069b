-- ===== src/Main/Refines.antt =====
-- The abstract view of the runtime: the set of names that have a consumer, and how each step of the
-- running process (runtimes/ts/pkg/consumer.ts, runtimes/ts/main.ts) changes it.
use litefunctions.Prelude.{
  ℕ, ◌≡◌, refl, ap, ◌∙◌, fun_ext, sym, Bool, true, false, ◌&&◌, List, [], ◌∷◌, ◌++◌, arith, some,
  none, inl, inr, Option-cases,
}
use litefunctions.Prelude.Exec.{Result, ok, err, Result-cases}
use litefunctions.Text.{Text, codes, is_some}
use litefunctions.JsMap.{has, member}
use litefunctions.Conf.{Settings}
use litefunctions.Fs.{Fs, file, folder, stat, find_node, file_exists, readdir}
use litefunctions.Fs.Folders.{Node-cases}
use litefunctions.World.{World, Engine}
use litefunctions.Functions.Repo.{runtime_functions_path}
use litefunctions.Functions.Files.{is_stem, list_functions, sync_repo_and_reload}
use litefunctions.Functions.Files.Listing.{list_functions-lem}
use litefunctions.Consumer.{refresh, reconcile_consumers}
use litefunctions.Consumer.Code.{Code, code_of-reconcile_consumers}
use litefunctions.Consumer.Consistent.{IsConsistent}
use litefunctions.Consumer.Reconcile.{has-reconcile_consumers}
use litefunctions.Consumer.Refresh.{
  IsQuiet, IsConsistent-IsQuiet, sync_repo_and_reload-IsQuiet, reconcile_unlisted,
}
use litefunctions.State.{Broker}
use litefunctions.Main.{Server, requested_name, handle_sync_request, main}
use litefunctions.Main.Runs.{
  start, Steps, main-Steps, Step, message, hook_message, request, receive-IsQuiet,
  answer_named-IsQuiet,
}

-- A set of names.
abbrev pub Names : Type 0
Names = Text → Bool

-- The names that have a consumer.
abbrev pub consumer_names : World → Names
consumer_names w k = has k w.consumers

-- The functions whose files the runtime's folder holds.
abbrev pub functions_in : Engine → Fs → Names
functions_in e fs k =
    file_exists (runtime_functions_path e) fs
    && (is_stem k && is_some (find_node (runtime_functions_path e ++ (k ++ codes ".ts") ∷ []) fs))

-- The abstract machine over sets of names, where `there` is what the folder holds: a step keeps the
-- set, or makes it that of the functions that are there.
pub data NamesStep (there : Names) (before : Names) : Names → Type 0 where
  keep : {after : Names} → after ≡ before → NamesStep there before after
  deploy : {after : Names} → after ≡ there → NamesStep there before after

NamesStep-subst :
    {there there' before before' after : Names}
    → there ≡ there'
    → before ≡ before'
    → NamesStep there before after
    → NamesStep there' before' after
NamesStep-subst p q (keep e) = keep (e ∙ q)
NamesStep-subst p q (deploy e) = deploy (e ∙ p)

keep_of_IsQuiet :
    (e : Engine) (w u : World)
    → IsQuiet w u
    → NamesStep (functions_in e u.fs) (consumer_names w) (consumer_names u)
keep_of_IsQuiet e w u q = keep (ap (λ m k. has k m) q.consumers)

-- The reconciliation leaves the files alone.
fs-reconcile_consumers :
    (e : Engine) (s : Settings) (w : World) → (reconcile_consumers e s w).1.fs ≡ w.fs
fs-reconcile_consumers e s w = ap (λ (k : Code). k.fs) (code_of-reconcile_consumers e s w)

module _ (e : Engine) (s : Settings) (w : World) where
  no_folder :
      stat (runtime_functions_path e) w.fs ≡ none
      → ((list_functions e w).0 ≡ ok []) × (file_exists (runtime_functions_path e) w.fs ≡ false)
  unfolding list_functions file_exists
  no_folder absent = (ground arith, ground arith)

  is_a_file :
      {b : List ℕ}
      → stat (runtime_functions_path e) w.fs ≡ some (file b)
      → (x : Text) × ((list_functions e w).0 ≡ err x)
  unfolding list_functions file_exists readdir
  is_a_file there = elim (Result-cases (list_functions e w).0) [
    | inl (names, listed) ↦ absurd (ground arith)
    | inr failure ↦ failure
  ]

  folder_exists :
      stat (runtime_functions_path e) w.fs ≡ some folder
      → file_exists (runtime_functions_path e) w.fs ≡ true
  unfolding file_exists
  folder_exists there = ground arith

  -- The reconciliation is a step of the abstract machine.
  pub reconcile-NamesStep :
      IsConsistent s w
      → NamesStep
          (functions_in e w.fs)
          (consumer_names w)
          (consumer_names (reconcile_consumers e s w).1)
  unfolding member
  reconcile-NamesStep c = elim (Option-cases (stat (runtime_functions_path e) w.fs)) [
    | inl absent ↦
        let (listed, missing) = no_folder absent in
        deploy (fun_ext λ k. has-reconcile_consumers e s w [] listed c k ∙ rw missing refl)
    | inr (n, there) ↦ elim (Node-cases n) [
      | inr (b, is_file) ↦
          let (x, failure) = is_a_file {b = b} (there ∙ ap some is_file) in
          keep (rw (reconcile_unlisted e s w failure) refl)
      | inl is_folder ↦
          let top = there ∙ ap some is_folder in
          deploy (
            fun_ext λ k.
              let (names, listed, _, _, listing) = list_functions-lem e w k top in
              has-reconcile_consumers e s w names (ap (λ (r : Result _ × World). r.0) listed) c k
              ∙ listing
              ∙ rw (folder_exists top) refl)
    ]
  ]

module _ (e : Engine) (s : Settings) (w : World) where
  hook-NamesStep :
      IsConsistent s w
      → NamesStep
          (functions_in e (refresh e s w).fs)
          (consumer_names w)
          (consumer_names (refresh e s w))
  unfolding refresh
  hook-NamesStep c =
      let quiet = sync_repo_and_reload-IsQuiet e s w in
      elim (Result-cases (sync_repo_and_reload e s w).0) [
        | inr (x, bad) ↦
            rw (refresh, bad) (keep_of_IsQuiet e w (sync_repo_and_reload e s w).1 quiet)
        | inl (n, good) ↦
            let after = (sync_repo_and_reload e s w).1 in
            rw (refresh, good)
              (NamesStep-subst (ap (functions_in e) (sym (fs-reconcile_consumers e s after)))
                (ap (λ m k. has k m) quiet.consumers)
                (reconcile-NamesStep e s after (IsConsistent-IsQuiet s w after quiet c)))
      ]

-- A step from a consistent world is a step of the abstract machine.
pub Step-NamesStep :
    (e : Engine) (v : Server) (s : Settings) {w u : World}
    → IsConsistent s w
    → Step e v s w u
    → NamesStep (functions_in e u.fs) (consumer_names w) (consumer_names u)
unfolding handle_sync_request
Step-NamesStep e v s c (message name subject payload w) =
    keep_of_IsQuiet e w _ (receive-IsQuiet e s name subject payload w)
Step-NamesStep e v s c (hook_message w) = hook-NamesStep e s w c
Step-NamesStep e v s c (request req w) =
    keep_of_IsQuiet e w _ (answer_named-IsQuiet e v req (requested_name s req) w)

-- Once `main` has returned, every step of the running process refines the abstract machine, whatever
-- came before it: the names that have a consumer after the step are those that had one before, or
-- exactly the functions whose files are then in the runtime's folder.
pub main-NamesStep :
    (e : Engine) (v : Server) (b : Broker) (s : Settings) (fs : Fs) {w u x : World}
    → main e v b s (start fs) ≡ (ok tt, w)
    → Steps e v s w u
    → Step e v s u x
    → NamesStep (functions_in e x.fs) (consumer_names u) (consumer_names x)
main-NamesStep e v b s fs {w} {u} started steps step =
    Step-NamesStep e v s (main-Steps e v b s fs {w = w} {u = u} started steps) step
