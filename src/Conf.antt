-- ===== src/Conf.antt =====
-- runtimes/ts/pkg/conf.ts: the settings, read from the environment, and the log line.
pub mod Laws
use litefunctions.Prelude.{
  ℕ, zero, suc, ◌+◌, ◌-◌, ◌*◌, Bool, true, false, ◌&&◌, ◌||◌, List, [], ◌∷◌, ◌++◌, Option, none,
  some, ltb, leb, ◌==◌, if◌then◌else◌, map,
}
use litefunctions.Prelude.Exec.{Result, ok, err}
use litefunctions.Text.{Text, codes, strip_suffix, join}
use litefunctions.JsMap.{JsMap, get}

-- `negsuc n` is -(n + 1).
pub data ℤ : Type 0 where
  pos : ℕ → ℤ
  negsuc : ℕ → ℤ

pub record Settings : Type 0 where
  pub project : Text
  pub nats_url : Text
  pub http_port : ℤ
  pub vcs_base_url : Text
  pub git_user : Text
  pub git_token : Text
  pub name : Text

-- `process.env`
abbrev pub Env : Type 0
Env = JsMap Text

unfoldable pub env_or : Env → Text → Text → Text
unfolding get
env_or env name default = elim (get name env) [ none ↦ default | some v ↦ v ]

abbrev required : Text → Option Text → Result Text
required name none = err (codes "Error: " ++ (name ++ codes " is required"))
required name (some []) = err (codes "Error: " ++ (name ++ codes " is required"))
required name (some (c ∷ v)) = ok (c ∷ v)

-- `requiredEnv`: an empty value counts as a missing one.
unfoldable pub required_env : Env → Text → Result Text
unfolding get
required_env env name = required name (get name env)

-- white space and line ends, as `parseInt` skips them
is_space : ℕ → Bool
is_space c =
    leb 9 c && leb c 13
    || c == 32
    || c == 0xa0
    || c == 0x1680
    || leb 0x2000 c && leb c 0x200a
    || c == 0x2028
    || c == 0x2029
    || c == 0x202f
    || c == 0x205f
    || c == 0x3000
    || c == 0xfeff

trim_start : Text → Text
unfolding is_space
trim_start [] = []
trim_start (c ∷ s) = let rest = trim_start s in if is_space c then rest else c ∷ s

abbrev is_digit : ℕ → Bool
is_digit c = leb b'0' c && leb c b'9'

-- the longest prefix of digits behind the value `n`
digits_value : ℕ → Text → ℕ
digits_value n [] = n
digits_value n (c ∷ s) =
    let more = digits_value (n * 10 + (c - b'0')) s in if is_digit c then more else n

-- No digit at all is NaN.
unsigned : Text → Option ℕ
unfolding digits_value
unsigned [] = none
unsigned (c ∷ s) = if is_digit c then some (digits_value 0 (c ∷ s)) else none

abbrev negate : Option ℕ → Option ℤ
negate none = none
negate (some zero) = some (pos zero)
negate (some (suc n)) = some (negsuc n)

abbrev positive : Option ℕ → Option ℤ
positive none = none
positive (some n) = some (pos n)

signed : Text → Option ℤ
unfolding unsigned
signed [] = none
signed (c ∷ s) =
    if c == b'-'
    then negate (unsigned s)
    else if c == b'+'
    then positive (unsigned s)
    else positive (unsigned (c ∷ s))

-- `Number.parseInt(s, 10)`, with `none` for NaN. The value is exact: the rounding of numbers above
-- 2^53 to a double is left out. -0 and 0 are one value, which `||` treats alike.
unfoldable pub parse_int : Text → Option ℤ
unfolding trim_start signed
parse_int s = signed (trim_start s)

-- `n || 8080`
abbrev pub or_8080 : Option ℤ → ℤ
or_8080 none = pos 8080
or_8080 (some (pos zero)) = pos 8080
or_8080 (some (pos (suc n))) = pos (suc n)
or_8080 (some (negsuc n)) = negsuc n

-- `s.replace(/\/$/, "")`
unfoldable pub drop_slash : Text → Text
unfolding strip_suffix
drop_slash s = elim (strip_suffix (codes "/") s) [ none ↦ s | some r ↦ r ]

abbrev with_project_and_nats : Env → Text → Text → Settings
with_project_and_nats env project nats_url = record {
  project = project;
  nats_url = nats_url;
  http_port = or_8080 (parse_int (env_or env (codes "HTTP_PORT") (codes "8080")));
  vcs_base_url = drop_slash (env_or env (codes "VCS_BASE_URL") (codes "https://github.com"));
  git_user = env_or env (codes "GIT_USER") [];
  git_token = env_or env (codes "GIT_TOKEN") [];
  name = env_or env (codes "NAME") [];
}

abbrev and_nats : Env → Text → Result Text → Result Settings
and_nats env project (ok nats_url) = ok (with_project_and_nats env project nats_url)
and_nats env project (err e) = err e

abbrev and_project : Env → Result Text → Result Settings
and_project env (ok project) = and_nats env project (required_env env (codes "NATS_URL"))
and_project env (err e) = err e

-- The initializer of `settings`: the fields are evaluated in the order of the text.
unfoldable pub load_settings : Env → Result Settings
unfolding required_env env_or parse_int drop_slash
load_settings env = and_project env (required_env env (codes "PROJECT"))

abbrev attr_text : Text × Text → Text
attr_text (k, v) = k ++ (codes "=" ++ v)

-- `log`: the line that is printed at the time `now`, for attributes whose values are strings.
unfoldable pub log_line : Text → Text → JsMap Text → Text
unfolding join
log_line now msg [] = now ++ (codes " [INFO] " ++ msg)
log_line now msg (a ∷ attrs) =
    now
    ++ (codes " [INFO] " ++ (msg ++ (codes " " ++ join (codes " ") (map attr_text (a ∷ attrs)))))
