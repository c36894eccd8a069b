-- ===== src/Tests/Configuring.antt =====
-- The settings, the stream and the repository on concrete inputs.
use litefunctions.Prelude.{
  ℕ, ◌≡◌, ◌≢◌, ◌↔◌, ◌⊎◌, refl, true, [], ◌∷◌, some, arith, if◌then◌else◌, ◌==◌,
}
use litefunctions.Prelude.Exec.{ok, err}
use litefunctions.Text.{Text, codes, text_eq, includes, decimal}
use litefunctions.Text.Split.{Lacks}
use litefunctions.Text.Utf8.{IsText, encode, is_well_formed}
use litefunctions.Text.Percent.{encode_git_part, percent_decode, percent_decode-encode_git_part}
use litefunctions.JsMap.{get}
use litefunctions.Conf.{pos, Settings, Env, load_settings, log_line}
use litefunctions.Conf.Laws.{
  IsMissing, missing_text, load_settings-required, load_settings-http_port,
}
use litefunctions.Fs.{file_exists, find_node, path_eq}
use litefunctions.World.{Engine, Url}
use litefunctions.Functions.Repo.{repo_path, repo_url, reset_to, sync_repo, clone, or_default}
use litefunctions.Functions.Repo.Credentials.{
  credentials, password, credentials-repo_url, clone_failure-includes,
}
use litefunctions.Functions.Repo.Sync.{fetch, sync_repo-ok, repo_url-base}
use litefunctions.State.{stream_subject, app_state_new}
use litefunctions.State.Streams.{is_there, app_state_new-ok}
use litefunctions.Main.Runs
use litefunctions.Tests.Fixtures.{engine, settings, broker, disk}

reading : Unit {0}
unfolding load_settings app_state_new get text_eq decimal encode_git_part repo_url file_exists
    find_node path_eq repo_path is_well_formed
reading = tt

abbrev env : Env
env =
    (codes "PROJECT", codes "demo")
    ∷ (codes "NATS_URL", codes "nats://n")
    ∷ (codes "HTTP_PORT", decimal 90)
    ∷ []

abbrev from_env : Settings
from_env = record {
  project = codes "demo";
  nats_url = codes "nats://n";
  http_port = pos 90;
  vcs_base_url = codes "https://github.com";
  git_user = [];
  git_token = [];
  name = [];
}

loads : load_settings env ≡ ok from_env
unfolding reading
loads = refl

abbrev bad_env : Env
bad_env = (codes "PROJECT", codes "demo") ∷ (codes "NATS_URL", []) ∷ []

fails : load_settings bad_env ≡ err (missing_text (codes "NATS_URL"))
unfolding reading
fails = refl

load_settings-required_example :
    ((s : Settings) × (load_settings bad_env ≡ ok s)
      × (get (codes "PROJECT") bad_env ≡ some s.project)
      × (s.project ≢ [])
      × (get (codes "NATS_URL") bad_env ≡ some s.nats_url)
      × (s.nats_url ≢ []))
    ⊎ ((e : Text) × (load_settings bad_env ≡ err e)
        × ((IsMissing (get (codes "PROJECT") bad_env) × (e ≡ missing_text (codes "PROJECT")))
            ⊎ (((p : Text) × (get (codes "PROJECT") bad_env ≡ some p) × (p ≢ []))
                × IsMissing (get (codes "NATS_URL") bad_env)
                × (e ≡ missing_text (codes "NATS_URL")))))
load_settings-required_example = load_settings-required bad_env

port_set : get (codes "HTTP_PORT") env ≡ some (decimal 90)
unfolding reading
port_set = refl

load_settings-http_port_example : from_env.http_port ≡ (if 90 == 0 then pos 8080 else pos 90)
load_settings-http_port_example = load_settings-http_port env {s = from_env} loads 90 port_set

abbrev odd_env : Env
odd_env =
    (codes "PROJECT", codes "demo")
    ∷ (codes "NATS_URL", codes "nats://n")
    ∷ (codes "HTTP_PORT", codes "http")
    ∷ []

odd_loads : load_settings odd_env ≡ ok (record from_env { http_port = pos 8080 })
unfolding reading
odd_loads = refl

app_state_new-ok_example :
    (((app_state_new broker settings (Runs.start disk)).0 ≡ ok tt) ↔ (
      (broker.connect settings.nats_url ≡ ok tt)
      × (broker.manager ≡ ok tt)
      × (is_there (broker.add_stream settings.project (stream_subject settings ∷ [])) ≡ true)))
    × ((app_state_new broker settings (Runs.start disk)).1 ≡ Runs.start disk)
app_state_new-ok_example = app_state_new-ok broker settings (Runs.start disk)

token-IsText : IsText settings.git_token
token-IsText = omega arith

user-IsText : IsText settings.git_user
user-IsText = omega arith

https_lacks : Lacks b'/' (codes "https:")
https_lacks = omega arith

host_lacks_slash : Lacks b'/' (codes "github.com")
host_lacks_slash = omega arith

host_lacks_at : Lacks b'@' (codes "github.com")
host_lacks_at = omega arith

token_given : settings.git_token ≢ []
token_given = ground arith

token_well_formed : is_well_formed settings.git_token ≡ true
unfolding reading
token_well_formed = refl

owner_well_formed : is_well_formed (or_default settings.git_user (codes "git")) ≡ true
unfolding reading
owner_well_formed = refl

abbrev github : Url
github = record { protocol = codes "https:"; host = codes "github.com"; pathname = [] }

-- A base URL with a path.
abbrev github_git : Url
github_git = record github { pathname = codes "/git" }

parsed_github : engine.new_url settings.vcs_base_url ≡ ok github
unfolding reading
parsed_github = refl

parsed_github_git : engine.new_url (codes "https://github.com/git") ≡ ok github_git
unfolding reading
parsed_github_git = refl

credentials-repo_url_example :
    (url : Text) × (repo_url engine settings ≡ ok url)
    × (credentials url
        ≡ some (encode (or_default settings.git_user (codes "git")), encode settings.git_token))
credentials-repo_url_example =
    credentials-repo_url engine settings github parsed_github https_lacks host_lacks_slash
      host_lacks_at user-IsText token-IsText owner_well_formed token_well_formed token_given

clone_url : repo_url engine settings ≡ ok (codes "https://ann:s@%3A%2F@github.com/ann/demo")
unfolding reading
clone_url = refl

token_encodes : encode_git_part settings.git_token ≡ ok (codes "s@%3A%2F")
unfolding reading
token_encodes = refl

abbrev git_fails : Engine
git_fails = record engine {
  spawn = λ cmd fs. (ok (record { code = 128; stdout = []; stderr = codes "no net" }), fs);
}

url_of_git_fails :
    repo_url git_fails settings ≡ ok (codes "https://ann:s@%3A%2F@github.com/ann/demo")
unfolding reading
url_of_git_fails = refl

code_128 : ◌≢◌ {A = ℕ} 128 0
code_128 = omega arith

clone_failure-includes_example :
    (text : Text) × (clone git_fails settings (Runs.start disk) ≡ (err text, Runs.start disk))
    × (includes (password (codes "s@%3A%2F")) text ≡ true)
clone_failure-includes_example =
    clone_failure-includes git_fails settings (Runs.start disk)
      (record { code = 128; stdout = []; stderr = codes "no net" }) disk
      {url = codes "https://ann:s@%3A%2F@github.com/ann/demo"} {secret = codes "s@%3A%2F"}
      token_given token_encodes url_of_git_fails refl code_128

cloned : file_exists (repo_path settings) disk ≡ true
unfolding reading
cloned = refl

sync_repo-ok_example : ((sync_repo engine settings (Runs.start disk)).0 ≡ ok tt) ↔ (
    ((fetch engine settings (Runs.start disk)).0 ≡ ok tt)
    × (((reset_to engine settings
            (codes "origin/main")
            (fetch engine settings (Runs.start disk)).1).0
          ≡ ok tt)
        ⊎ ((reset_to engine settings
              (codes "origin/master")
              (reset_to engine settings
                (codes "origin/main")
                (fetch engine settings (Runs.start disk)).1).1).0
            ≡ ok tt)))
sync_repo-ok_example = sync_repo-ok engine settings (Runs.start disk) cloned

repo_url-base_example :
    repo_url engine (record settings { vcs_base_url = codes "https://github.com/git" })
    ≡ repo_url engine settings
repo_url-base_example =
    repo_url-base engine settings (codes "https://github.com/git") {u = github_git} {v = github}
      parsed_github_git parsed_github refl refl token_given

percent_decode-encode_git_part_example :
    percent_decode (codes "s@%3A%2F") ≡ encode settings.git_token
percent_decode-encode_git_part_example =
    percent_decode-encode_git_part settings.git_token {t = codes "s@%3A%2F"} token-IsText
      token_encodes

line :
    log_line (codes "T") (codes "hi") ((codes "a", codes "1") ∷ (codes "b", codes "2") ∷ [])
    ≡ codes "T [INFO] hi a=1 b=2"
unfolding log_line
line = refl
