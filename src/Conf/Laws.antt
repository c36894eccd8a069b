-- ===== src/Conf/Laws.antt =====
-- What `load_settings` accepts, and what it makes of HTTP_PORT and VCS_BASE_URL.
use litefunctions.Prelude.{
  ℕ, zero, suc, ◌+◌, ◌/◌, ◌%◌, ◌<◌, ◌≡◌, ◌≢◌, refl, ◌⊎◌, inl, inr, Bool, true, false, [], ◌∷◌, ◌++◌,
  Option, none, some, ◌==◌, if◌then◌else◌, arith,
}
use litefunctions.Prelude.Exec.{Result, ok, err, Result-cases}
use litefunctions.Text.{Text, codes, text_eq, strip_suffix, decimal, digits_from}
use litefunctions.JsMap.{get}
use litefunctions.Conf.{
  pos, Settings, Env, env_or, required, required_env, digits_value, is_space, is_digit, parse_int,
  or_8080, drop_slash, load_settings, with_project_and_nats, and_project, and_nats,
}

abbrev pub IsMissing : Option Text → Type 0
IsMissing o = (o ≡ none) ⊎ (o ≡ some [])

abbrev pub missing_text : Text → Text
missing_text name = codes "Error: " ++ (name ++ codes " is required")

required-ok :
    (name : Text) (o : Option Text) {v : Text} → required name o ≡ ok v → (o ≡ some v) × (v ≢ [])
required-ok name none h = cc
required-ok name (some []) h = cc
required-ok name (some (c ∷ v)) h = ground arith

required-err :
    (name : Text) (o : Option Text) {e : Text}
    → required name o ≡ err e
    → IsMissing o × (e ≡ missing_text name)
required-err name none h = (inl refl, ground arith)
required-err name (some []) h = (inr refl, ground arith)
required-err name (some (c ∷ v)) h = cc

and_project-ok :
    (env : Env) (r : Result Text) {s : Settings}
    → and_project env r ≡ ok s
    → (p : Text) × (r ≡ ok p) × (and_nats env p (required_env env (codes "NATS_URL")) ≡ ok s)
and_project-ok env (ok p) h = (p, refl, h)
and_project-ok env (err e) h = cc

and_nats-ok :
    (env : Env) (p : Text) (r : Result Text) {s : Settings}
    → and_nats env p r ≡ ok s
    → (u : Text) × (r ≡ ok u) × (with_project_and_nats env p u ≡ s)
and_nats-ok env p (ok u) h = (u, refl, ground arith)
and_nats-ok env p (err e) h = cc

load_settings-and_project :
    (env : Env) {s : Settings}
    → load_settings env ≡ ok s
    → (p : Text) × (required_env env (codes "PROJECT") ≡ ok p)
      × (and_nats env p (required_env env (codes "NATS_URL")) ≡ ok s)
unfolding load_settings
load_settings-and_project env h = and_project-ok env _ h

-- Loaded settings come from a project and a broker that are set.
inversion :
    (env : Env) {s : Settings}
    → load_settings env ≡ ok s
    → (p : Text) × (u : Text) × (required_env env (codes "PROJECT") ≡ ok p)
      × (required_env env (codes "NATS_URL") ≡ ok u)
      × (with_project_and_nats env p u ≡ s)
inversion env h =
    let (p, ep, hp) = load_settings-and_project env h in
    let (u, eu, hu) = and_nats-ok env p _ hp in (p, u, ep, eu, hu)

-- Loaded settings hold the values of PROJECT and NATS_URL, which are set to something.
load_settings-ok :
    (env : Env) {s : Settings}
    → load_settings env ≡ ok s
    → (get (codes "PROJECT") env ≡ some s.project)
      × (s.project ≢ [])
      × (get (codes "NATS_URL") env ≡ some s.nats_url)
      × (s.nats_url ≢ [])
unfolding required_env
load_settings-ok env {s} h =
    let (p, u, ep, eu, e) = inversion env h in
    let (p_set, p_ne) = required-ok (codes "PROJECT") _ ep in
    let (u_set, u_ne) = required-ok (codes "NATS_URL") _ eu in rw (← e) (p_set, p_ne, u_set, u_ne)

and_nats-err :
    (env : Env) (p : Text) (r : Result Text) {e : Text} → and_nats env p r ≡ err e → r ≡ err e
and_nats-err env p (ok u) h = cc
and_nats-err env p (err e) h = ground arith

and_project-err :
    (env : Env) (r : Result Text) {e : Text}
    → and_project env r ≡ err e
    → (r ≡ err e) ⊎ ((p : Text) × (r ≡ ok p) × (required_env env (codes "NATS_URL") ≡ err e))
and_project-err env (ok p) h = inr (p, refl, and_nats-err env p _ h)
and_project-err env (err e) h = inl (ground arith)

-- An error names the variable that is missing or empty, PROJECT first.
load_settings-err :
    (env : Env) {e : Text}
    → load_settings env ≡ err e
    → (IsMissing (get (codes "PROJECT") env) × (e ≡ missing_text (codes "PROJECT")))
      ⊎ (((p : Text) × (get (codes "PROJECT") env ≡ some p) × (p ≢ []))
          × IsMissing (get (codes "NATS_URL") env)
          × (e ≡ missing_text (codes "NATS_URL")))
unfolding load_settings required_env
load_settings-err env {e} h = elim (and_project-err env _ h) [
  | inl p ↦ inl (required-err (codes "PROJECT") _ p)
  | inr (p, project, u) ↦
      let (set, given) = required-ok (codes "PROJECT") _ project in
      let (missing, names) = required-err (codes "NATS_URL") _ u in
      inr ((p, set, given), missing, names)
]

-- The settings load, and hold the values of PROJECT and NATS_URL, which are set to something; or they
-- do not load: then the error names PROJECT, where that is missing or empty, and where PROJECT is set to
-- something it names NATS_URL, which is missing or empty.
pub load_settings-required :
    (env : Env)
    → ((s : Settings) × (load_settings env ≡ ok s)
        × (get (codes "PROJECT") env ≡ some s.project)
        × (s.project ≢ [])
        × (get (codes "NATS_URL") env ≡ some s.nats_url)
        × (s.nats_url ≢ []))
      ⊎ ((e : Text) × (load_settings env ≡ err e)
          × ((IsMissing (get (codes "PROJECT") env) × (e ≡ missing_text (codes "PROJECT")))
              ⊎ (((p : Text) × (get (codes "PROJECT") env ≡ some p) × (p ≢ []))
                  × IsMissing (get (codes "NATS_URL") env)
                  × (e ≡ missing_text (codes "NATS_URL")))))
load_settings-required env = elim (Result-cases (load_settings env)) [
  | inl (s, loaded) ↦
      let (p, given, u, set) = load_settings-ok env loaded in inl (s, loaded, p, given, u, set)
  | inr (e, failed) ↦ inr (e, failed, load_settings-err env failed)
]

digits_value-digits_from :
    (f n : ℕ) (out : Text) → n < f → digits_value 0 (digits_from f n out) ≡ digits_value n out
unfolding digits_value digits_from
digits_value-digits_from zero n out h = absurd (omega arith)
digits_value-digits_from (suc f) n out h =
    ground (arith, digits_value-digits_from f (n / 10) ((b'0' + n % 10) ∷ out))

starts_with_digit : Text → Bool
starts_with_digit [] = false
starts_with_digit (c ∷ s) = is_digit c

starts_with_digit-digits_from :
    (f n : ℕ) (out : Text) → n < f → starts_with_digit (digits_from f n out) ≡ true
unfolding starts_with_digit digits_from
starts_with_digit-digits_from zero n out h = absurd (omega arith)
starts_with_digit-digits_from (suc f) n out h =
    ground (arith, starts_with_digit-digits_from f (n / 10) ((b'0' + n % 10) ∷ out))

parse_int-digits :
    (s : Text) → starts_with_digit s ≡ true → parse_int s ≡ some (pos (digits_value 0 s))
unfolding parse_int starts_with_digit is_space
parse_int-digits [] h = cc
parse_int-digits (c ∷ s) h = ground arith

-- Reading a number's decimal text gives the number.
pub parse_int-decimal : (n : ℕ) → parse_int (decimal n) ≡ some (pos n)
unfolding decimal
parse_int-decimal n =
    rw
      (parse_int-digits (digits_from (suc n) n [])
        (starts_with_digit-digits_from (suc n) n [] (omega arith)))
      (rw (digits_value-digits_from (suc n) n [] (omega arith)) (unfold digits_value in refl))

or_8080_lem : (n : ℕ) → or_8080 (some (pos n)) ≡ (if n == 0 then pos 8080 else pos n)
or_8080_lem zero = refl
or_8080_lem (suc n) = ground arith

env_or-some :
    (env : Env) (name default : Text) {v : Text}
    → get name env ≡ some v
    → env_or env name default ≡ v
unfolding env_or
env_or-some env name default q = ground arith

env_or-none :
    (env : Env) (name default : Text) → get name env ≡ none → env_or env name default ≡ default
unfolding env_or
env_or-none env name default q = ground arith

parse_8080 : parse_int (codes "8080") ≡ some (pos 8080)
unfolding parse_int is_space
parse_8080 = refl

module _ (env : Env) {s : Settings} (loaded : load_settings env ≡ ok s) where
  -- Where HTTP_PORT is a decimal number, the port is that number, and 8080 for the number 0.
  pub load_settings-http_port :
      (n : ℕ)
      → get (codes "HTTP_PORT") env ≡ some (decimal n)
      → s.http_port ≡ (if n == 0 then pos 8080 else pos n)
  load_settings-http_port n set =
      let (p, u, _, _, e) = inversion env loaded in
      rw (← e) (rw (env_or-some env _ _ set, parse_int-decimal n) (or_8080_lem n))

  -- Where HTTP_PORT is not set, or spells no number, the port is 8080.
  load_settings-default_port :
      (get (codes "HTTP_PORT") env ≡ none)
        ⊎ ((v : Text) × (get (codes "HTTP_PORT") env ≡ some v) × (parse_int v ≡ none))
      → s.http_port ≡ pos 8080
  load_settings-default_port (inl unset) =
      let (p, u, _, _, e) = inversion env loaded in
      rw (← e) (rw (env_or-none env _ (codes "8080") unset, parse_8080))
  load_settings-default_port (inr (v, set, nan)) =
      let (p, u, _, _, e) = inversion env loaded in rw (← e) (rw (env_or-some env _ _ set, nan))

strip_slash-append : (s : Text) → strip_suffix (codes "/") (s ++ codes "/") ≡ some s
unfolding strip_suffix text_eq
strip_slash-append [] = refl
strip_slash-append (c ∷ []) = ground arith
strip_slash-append (c ∷ d ∷ s) = ground (arith, strip_slash-append (d ∷ s))

-- One slash at the end is dropped, and only one.
pub drop_slash-append : (s : Text) → drop_slash (s ++ codes "/") ≡ s
unfolding drop_slash
drop_slash-append s = rw (strip_slash-append s, drop_slash)
