-- ===== src/Main/Answers.antt =====
-- What `handleSyncRequest` (runtimes/ts/main.ts) answers.
use litefunctions.Prelude.{
  append_assoc, subst, ℕ, ◌≡◌, ◌≢◌, ◌↔◌, refl, ap, ◌∙◌, ◌⊎◌, inl, inr, true, false, [], ◌∷◌, ◌++◌,
  if◌then◌else◌, arith, none, some, Bool-cases,
}
use litefunctions.Prelude.Exec.{Result, ok, err}
use litefunctions.Text.{Text, codes, includes}
use litefunctions.Text.Search.{includes-append}
use litefunctions.Text.Utf8.{Bytes}
use litefunctions.JsMap.{get}
use litefunctions.Conf.{Settings}
use litefunctions.Fs.{file_exists, path_text}
use litefunctions.Value.{Value, json, arr, Json, Jsons, cons, null, bool, num, str, obj}
use litefunctions.Value.Emit.{Emission, fails, as_bytes, emit, emit_items, json_items}
use litefunctions.World.{World, Engine, LoadedModule, RequestLike}
use litefunctions.Functions.Repo.{runtime_functions_path}
use litefunctions.Functions.Modules.{
  function_path, not_found, resolve_function_file, load_new, load_module, emit_result,
  invoke_module,
}
use litefunctions.Functions.Modules.Fresh.{IsCurrent, load_module-current}
use litefunctions.Functions.Modules.Keeps.{IsKept, invoke_module-IsKept}
use litefunctions.Main.{
  and_then, Request, Response, Server, readable, read, as_request_like, requested_name, first_of,
  text_response, error_response, answer, answer_named, handle_sync_request,
}

abbrev pub IsStatus : ℕ → Type 0
IsStatus n = (n ≡ 200) ⊎ ((n ≡ 400) ⊎ ((n ≡ 404) ⊎ (n ≡ 500)))

IsStatus-answer :
    (name : Text) (r : Result Bytes)
    → IsStatus (answer name r).status × ((answer name r).status ≢ 400)
unfolding error_response text_response
IsStatus-answer name (ok b) = (inl refl, omega arith)
IsStatus-answer name (err x) = elim (Bool-cases (includes (codes "not found") x)) [
  | inl missing ↦ rw missing (inr (inr (inl refl)), omega arith)
  | inr other ↦ rw other (inr (inr (inr refl)), omega arith)
]

IsKept-self : (w : World) → IsKept w w
IsKept-self w = record { fs = refl; module_version = refl; client = refl; consumers = refl }

module _ (e : Engine) (v : Server) (req : Request) (w : World) where
  -- The invocation that a request leads to.
  abbrev invoked : Text → Emission
  invoked name = (invoke_module e name (as_request_like e v (read req)) w).0

  answer_named-eq :
      (c : ℕ) (name : Text) {raw : Bytes}
      → readable v req ≡ ok raw
      → (answer_named e v req (c ∷ name) w).0
        ≡ ok (answer (c ∷ name) (first_of (invoked (c ∷ name)).outputs (invoked (c ∷ name)).ending))
  unfolding answer_named
  answer_named-eq c name r = rw r refl

  answer_named-answers :
      (name : Text) {raw : Bytes}
      → readable v req ≡ ok raw
      → (r : Response) × ((answer_named e v req name w).0 ≡ ok r)
        × IsStatus r.status
        × ((r.status ≡ 400) ↔ (name ≡ []))
        × IsKept w (answer_named e v req name w).1
  unfolding answer_named text_response
  answer_named-answers [] got = (_, refl, inr (inl refl), (λ _. refl, λ _. refl), IsKept-self w)
  answer_named-answers (c ∷ name) got =
      let good =
        IsStatus-answer (c ∷ name)
          (first_of (invoked (c ∷ name)).outputs (invoked (c ∷ name)).ending) in
      rw got (
        _,
        refl,
        good.0,
        (λ h. absurd (good.1 h), λ h. cc h),
        invoke_module-IsKept e (c ∷ name) (as_request_like e v (read req)) w,
      )

-- A request whose body arrives is answered, with status 200, 400, 404 or 500, and with 400 exactly
-- if no name is given; the files, the module version, CONSUMERS and the connection are left alone.
pub handle_sync_request-answers :
    (e : Engine) (v : Server) (s : Settings) (req : Request) (w : World) {raw : Bytes}
    → readable v req ≡ ok raw
    → (r : Response) × ((handle_sync_request e v s req w).0 ≡ ok r)
      × IsStatus r.status
      × ((r.status ≡ 400) ↔ (requested_name s req ≡ []))
      × IsKept w (handle_sync_request e v s req w).1
unfolding handle_sync_request
handle_sync_request-answers e v s req w got =
    answer_named-answers e v req w (requested_name s req) got

pub load_module-missing :
    (e : Engine) (name : Text) (w : World)
    → get name w.modules ≡ none
    → file_exists (function_path e name) w.fs ≡ false
    → (load_module e name w).0 ≡ err (not_found e name)
unfolding load_module load_new resolve_function_file
load_module-missing e name w fresh missing = ground (arith, fresh, missing)

not_found-includes :
    (e : Engine) (name : Text) → includes (codes "not found") (not_found e name) ≡ true
not_found-includes e name =
    subst (λ t. includes (codes "not found") t ≡ true)
      (append_assoc (codes "Error: function '") (name ++ codes "' ") _
        ∙ ap (λ t. codes "Error: function '" ++ t)
            (append_assoc name (codes "' ")
              (codes "not found" ++ (codes " in " ++ path_text (runtime_functions_path e)))))
      (includes-append (codes "Error: function '" ++ (name ++ codes "' ")) (codes "not found")
        (codes " in " ++ path_text (runtime_functions_path e)))

-- The answer to a request whose invocation is known.
handle_sync_request_of :
    (e : Engine) (v : Server) (s : Settings) (req : Request) (w : World) (name : Text) {raw : Bytes}
    → readable v req ≡ ok raw
    → requested_name s req ≡ name
    → name ≢ []
    → (m : Emission) → (invoke_module e name (as_request_like e v (read req)) w).0 ≡ m
    → (handle_sync_request e v s req w).0 ≡ ok (answer name (first_of m.outputs m.ending))
unfolding handle_sync_request
handle_sync_request_of e v s req w [] got named given m ran = absurd (given refl)
handle_sync_request_of e v s req w (c ∷ name) got named given m ran =
    ap (λ n. (answer_named e v req n w).0) named
    ∙ answer_named-eq e v req w c name got
    ∙ ap (λ (m : Emission). ok (answer (c ∷ name) (first_of m.outputs m.ending))) ran

-- A request for a function that is neither loaded nor in the runtime's folder gets status 404 and a
-- text that names it.
pub handle_sync_request-missing :
    (e : Engine) (v : Server) (s : Settings) (req : Request) (w : World) (name : Text) {raw : Bytes}
    → readable v req ≡ ok raw
    → requested_name s req ≡ name
    → name ≢ []
    → get name w.modules ≡ none
    → file_exists (function_path e name) w.fs ≡ false
    → (handle_sync_request e v s req w).0
      ≡ ok (text_response 404 (codes "function '" ++ (name ++ codes "' not found")))
unfolding invoke_module error_response
handle_sync_request-missing e v s req w name got named given fresh missing =
    handle_sync_request_of e v s req w name got named given (fails (not_found e name))
      (rw (load_module-missing e name w fresh missing) refl)
    ∙ rw (not_found-includes e name) refl

as_bytes-json : (j : Json) → (x : Bytes) × (as_bytes (json j) ≡ ok x)
unfolding as_bytes
as_bytes-json null = (_, refl)
as_bytes-json (bool b) = (_, refl)
as_bytes-json (num t) = (_, refl)
as_bytes-json (str t) = (_, refl)
as_bytes-json (arr js) = (_, refl)
as_bytes-json (obj ms) = (_, refl)

array_first :
    (j : Json) (js : Jsons) {x : Bytes}
    → as_bytes (json j) ≡ ok x
    → first_of (emit (json (arr (cons j js)))).outputs (emit (json (arr (cons j js)))).ending ≡ ok x
unfolding emit json_items emit_items
array_first j js h = rw h refl

read_used :
    (v : Server) (req : Request) {sent : Result Bytes}
    → req.body ≡ some sent
    → readable v (read req) ≡ err v.body_used_error
read_used v req {sent} there = elim (Bool-cases req.body_used) [
  | inl used ↦ rw used refl
  | inr fresh ↦ rw (fresh, there) refl
]

module _ (e : Engine) (v : Server) (s : Settings) (req : Request) (w : World) (name : Text)
    (b : Bytes) (m : LoadedModule) (handle : RequestLike → Result Value) {raw : Bytes}
    (got : readable v req ≡ ok raw) (named : requested_name s req ≡ name) (given : name ≢ [])
    (current : IsCurrent e name b w) (code : e.evaluate b ≡ ok m)
    (exported : m.handle ≡ some handle) where
  pub handle_sync_request_deployed :
      (r : Result Value)
      → handle (as_request_like e v (read req)) ≡ r
      → (handle_sync_request e v s req w).0
        ≡ ok (answer name (first_of (emit_result r).outputs (emit_result r).ending))
  unfolding invoke_module
  handle_sync_request_deployed r ran =
      handle_sync_request_of e v s req w name got named given (emit_result r)
        (rw (load_module-current e name b w current, code, exported, ran) refl)

  -- When the function that stands for the name returns an array, the answer is its first element,
  -- encoded on its own; the other elements are not sent.
  pub handle_sync_request-array :
      (j : Json) (js : Jsons)
      → handle (as_request_like e v (read req)) ≡ ok (json (arr (cons j js)))
      → (x : Bytes) × (as_bytes (json j) ≡ ok x)
        × ((handle_sync_request e v s req w).0 ≡ ok (answer name (ok x)))
  handle_sync_request-array j js ran =
      let (x, encoded) = as_bytes-json j in
      (
        x,
        encoded,
        handle_sync_request_deployed (ok (json (arr (cons j js)))) ran
            ∙ ap (λ r. ok (answer name r)) (array_first j js encoded),
      )

  -- When the function throws, the text of the error decides: 404 if it has "not found" in it, and
  -- else 500 with the text, though the function is there.
  pub handle_sync_request-throws :
      (x : Text)
      → handle (as_request_like e v (read req)) ≡ err x
      → (handle_sync_request e v s req w).0
        ≡ ok (
            if includes (codes "not found") x
            then text_response 404 (codes "function '" ++ (name ++ codes "' not found"))
            else text_response 500 x)
  unfolding error_response
  handle_sync_request-throws x ran = handle_sync_request_deployed (err x) ran

  -- A function that reads the body as JSON, and throws what that throws, never runs on a request
  -- with a body: the reading throws that the body is used, and this is the answer.
  pub handle_sync_request-reads_json :
      {sent : Result Bytes}
      → req.body ≡ some sent
      → ((r : RequestLike) (x : Text) → r.json ≡ err x → handle r ≡ err x)
      → (handle_sync_request e v s req w).0 ≡ ok (error_response name v.body_used_error)
  unfolding as_request_like
  handle_sync_request-reads_json {sent} there reads =
      handle_sync_request_deployed (err v.body_used_error) (
        reads (as_request_like e v (read req)) v.body_used_error
          (ap (and_then (λ b. e.parse_json (e.decode b))) (read_used v req {sent = sent} there)))
