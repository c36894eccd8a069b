-- ===== src/Consumer/Loops/Alone.antt =====
-- A loop that nothing interrupts: the call that it takes is `receive`.
use litefunctions.Prelude.{
  ℕ, zero, suc, ◌+◌, ◌≡◌, refl, ap, ◌∙◌, List, [], ◌∷◌, arith, inl, inr, Option-cases, Bool-cases,
  length, ◌++◌, map, some,
}
use litefunctions.Prelude.Exec.{ok, Result-cases}
use litefunctions.Text.{Text}
use litefunctions.Text.Split.{Lacks}
use litefunctions.Text.Utf8.{Bytes}
use litefunctions.JsMap.{get}
use litefunctions.Conf.{Settings}
use litefunctions.Fs.{file_exists}
use litefunctions.Value.{View}
use litefunctions.World.{World, Engine, LoadedModule}
use litefunctions.Functions.Modules.{
  function_path, import_module, resolve_function_file, load_new, load_module, invoke_module,
  to_request_like, call_handle,
}
use litefunctions.Functions.Modules.Fresh.{IsCurrent, load_module-current}
use litefunctions.Functions.Modules.Cached.{load_module-cached}
use litefunctions.Functions.Modules.Loads.{begin, advance}
use litefunctions.Consumer.{res_subject, request_id, publish_all, receive}
use litefunctions.Consumer.Messages.{call_subject, receive-call_subject}
use litefunctions.Consumer.Loops.{idle, loading, yielding, Loop, take_message, go_on, turn}

module _ (e : Engine) (s : Settings) (name : Text) where
  -- The loop runs on a number of times, with nothing in between.
  unfoldable pub turns_alone : ℕ → Loop × World → Loop × World
  unfolding turn
  turns_alone zero p = p
  turns_alone (suc n) (l, w) = turns_alone n (turn e s name l w)

  turns_alone-add :
      (m n : ℕ) (p : Loop × World) → turns_alone (m + n) p ≡ turns_alone n (turns_alone m p)
  unfolding turns_alone
  turns_alone-add zero n p = let same : 0 + n ≡ n = omega arith in ap (λ k. turns_alone k p) same
  turns_alone-add (suc m) n (l, w) =
      let same : suc m + n ≡ suc (m + n) = omega arith in
      ap (λ k. turns_alone k (l, w)) same ∙ turns_alone-add m n (turn e s name l w)

  publishes :
      (subject : Text) (q : List (Text × View)) (outs : List Bytes) (w : World)
      → turns_alone (suc (length outs)) (record { waiting = q; round = yielding subject outs }, w)
        ≡ (
          record { waiting = q; round = idle },
          record w { client = publish_all (res_subject s name (request_id subject)) outs w.client },
        )
  unfolding turns_alone publish_all
  publishes subject q [] w = refl
  publishes subject q (out ∷ outs) w = publishes subject q outs _

module _ (e : Engine) (s : Settings) (name subject : Text) (payload : View) (q : List (Text × View))
    (w : World) where
  abbrev taken : Loop × World
  taken = (record { waiting = q; round = loading subject payload (begin name w) }, w)

  abbrev called : Loop × World
  called = (
    record {
      waiting = q;
      round = yielding subject (invoke_module e name (to_request_like e payload) w).0.outputs;
    },
    (invoke_module e name (to_request_like e payload) w).1,
  )

  loads : (n : ℕ) × (turns_alone e s name n taken ≡ called)
  unfolding turns_alone begin advance invoke_module load_module load_new resolve_function_file go_on
  loads = elim (Option-cases (get name w.modules)) [
    | inr (m, hit) ↦ (1, ground (arith, hit))
    | inl absent ↦ elim (Bool-cases (file_exists (function_path e name) w.fs)) [
      | inr missing ↦ (2, ground (arith, absent, missing))
      | inl there ↦
          elim (Result-cases (import_module e (function_path e name) w.module_version w).0) [
            | inl (m, good) ↦ (4, ground (arith, absent, there, good))
            | inr (x, bad) ↦ (3, ground (arith, absent, there, bad))
          ]
    ]
  ]

-- A loop that takes a message and that nothing interrupts ends up waiting for the next, and has done
-- to the world what `receive` does: the rounds of the loops, cut at their waits, add up to it.
turns_alone-receive :
    (e : Engine) (s : Settings) (name subject : Text) (payload : View) (q : List (Text × View))
    (w : World)
    → (n : ℕ) × (turns_alone e s name n
          (record { waiting = (subject, payload) ∷ q; round = idle }, w)
        ≡ (record { waiting = q; round = idle }, receive e s name subject payload w))
unfolding turns_alone receive take_message
turns_alone-receive e s name subject payload q w =
    let outputs = (invoke_module e name (to_request_like e payload) w).0.outputs in
    let (n, loaded) = loads e s name subject payload q w in
    let from = taken e s name subject payload q w in
    (
      suc (n + suc (length outputs)),
      turns_alone-add e s name n (suc (length outputs)) from
          ∙ ap (turns_alone e s name (suc (length outputs))) loaded
          ∙ publishes e s name subject q outputs _,
    )

-- A call that nothing interrupts. A call `<project>.<name>.exec.ts.<id>` waits first for the loop of a
-- function, whose current code evaluates to a module. Some number of turns further the loop waits for
-- the next message, and what the module's `handle` gives for the payload has been published, all of it
-- and in order, on `<project>.<name>.res.ts.<id>`, and nothing else; the subscriptions are as before, and
-- the module is in the cache for the next call. No dot is in the project, the name and the id.
pub turns_alone-call_subject :
    (e : Engine) (s : Settings) (name req_id : Text) (payload : View) (q : List (Text × View))
    (w : World) (b : Bytes) {m : LoadedModule}
    → Lacks b'.' s.project
    → Lacks b'.' name
    → Lacks b'.' req_id
    → IsCurrent e name b w
    → e.evaluate b ≡ ok m
    → let outputs = (call_handle name (to_request_like e payload) (ok m)).outputs in
      (n : ℕ) × (w' : World) × (turns_alone e s name n
          (record { waiting = (call_subject s.project name req_id, payload) ∷ q; round = idle }, w)
        ≡ (record { waiting = q; round = idle }, w'))
      × (w'.client ≡ record w.client {
        published = w.client.published ++ map (λ out. (res_subject s name req_id, out)) outputs;
      })
      × (get name w'.modules ≡ some m)
unfolding receive invoke_module
turns_alone-call_subject e s name req_id payload q w b {m} project dotless id c code =
    let subject = call_subject s.project name req_id in
    let (n, turned) = turns_alone-receive e s name subject payload q w in
    let (client, _) = receive-call_subject e s name req_id payload w project dotless id in
    let loaded : (load_module e name w).0 ≡ ok m = load_module-current e name b w c ∙ code in
    (
      n,
      receive e s name subject payload w,
      turned,
      client
          ∙ ap
              (λ r. record w.client {
                published =
                    w.client.published
                    ++ map (λ out. (res_subject s name req_id, out))
                        (call_handle name (to_request_like e payload) r).outputs;
              })
              loaded,
      load_module-cached e name w {m = m} {w' = (load_module e name w).1}
          (λ i. (loaded i, (load_module e name w).1)),
    )
