-- ===== src/Tests/Fixtures.antt =====
-- A small runtime: an engine that answers a call with the text of the function's file, a repository
-- with one function, and a folder of functions with an old one.
use litefunctions.Prelude.{◌≡◌, refl, Bool, true, not, ◌&&◌, [], ◌∷◌, ◌++◌, none, some, arith, drop}
use litefunctions.Prelude.Exec.{ok, err}
use litefunctions.Text.{codes}
use litefunctions.Text.Utf8.{Bytes}
use litefunctions.Conf.{Settings, pos}
use litefunctions.Fs.{FilePath, Fs, Node, file, folder, find_node, child_name}
use litefunctions.Fs.Laws.{child_name_iff}
use litefunctions.Value.{json, str}
use litefunctions.World.{Engine, LoadedModule}
use litefunctions.Functions.Files.{is_function_file}
use litefunctions.Functions.Files.Plain.{IsPlain}
use litefunctions.State.{Broker}
use litefunctions.Main.{Server}

-- The module that a file with this content evaluates to.
abbrev pub echo : Bytes → LoadedModule
echo b = record { handle = some (λ req. ok (json (str b))) }

abbrev pub engine : Engine
engine = record {
  dir = codes "app" ∷ [];
  spawn = λ cmd fs. (ok (record { code = 0; stdout = []; stderr = [] }), fs);
  new_url = λ s.
      ok (record { protocol = codes "https:"; host = codes "github.com"; pathname = drop 18 s });
  evaluate = λ b. ok (echo b);
  decode = λ b. b;
  parse_json = λ s. ok (str s);
}

abbrev pub settings : Settings
settings = record {
  project = codes "demo";
  nats_url = codes "nats://n";
  http_port = pos 8080;
  vcs_base_url = codes "https://github.com";
  git_user = codes "ann";
  git_token = codes "s@:/";
  name = [];
}

abbrev pub server : Server
server = record { body_used_error = codes "TypeError: Body already used"; listen = λ port. ok tt }

abbrev pub broker : Broker
broker = record {
  connect = λ url. ok tt;
  manager = ok tt;
  add_stream = λ name subjects. err (codes "NatsError: stream name already in use");
}

abbrev pub root : FilePath
root = codes "app" ∷ codes "functions" ∷ []

abbrev pub source : FilePath
source = codes "tmp" ∷ codes "demo" ∷ codes "functions" ∷ codes "ts" ∷ []

abbrev pub hi : Bytes
hi = codes "hi"

abbrev pub disk : Fs
disk =
    (codes "app" ∷ [], folder)
    ∷ ([], folder)
    ∷ (root, folder)
    ∷ (root ++ codes "old.ts" ∷ [], file (codes "old"))
    ∷ (codes "tmp" ∷ [], folder)
    ∷ (codes "tmp" ∷ codes "demo" ∷ [], folder)
    ∷ (codes "tmp" ∷ codes "demo" ∷ codes "functions" ∷ [], folder)
    ∷ (source, folder)
    ∷ (source ++ codes "hi.ts" ∷ [], file hi)
    ∷ (source ++ codes "README.md" ∷ [], file (codes "x"))
    ∷ []

-- Whether a node is a folder with a function file's name in the folder `p`.
abbrev plain_node : FilePath → FilePath → Node → Bool
plain_node p q (file b) = true
plain_node p q folder = elim (child_name p q) [ none ↦ true | some a ↦ not (is_function_file a) ]

unfoldable pub plain_check : FilePath → Fs → Bool
unfolding child_name is_function_file
plain_check p [] = true
plain_check p ((q, n) ∷ fs) = plain_node p q n && plain_check p fs

pub plain_check_sound : (p : FilePath) (fs : Fs) → plain_check p fs ≡ true → IsPlain p fs
unfolding plain_check find_node
plain_check_sound p [] h a v found = cc found
plain_check_sound p ((q, file b) ∷ fs) h a v found =
    ground (arith, λ (f : find_node (p ++ a ∷ []) fs ≡ some folder). plain_check_sound p fs h a v f)
plain_check_sound p ((q, folder) ∷ fs) h a v found = ground (
  arith,
  child_name_iff p q a,
  λ (k : plain_check p fs ≡ true) (f : find_node (p ++ a ∷ []) fs ≡ some folder).
      plain_check_sound p fs k a v f,
)

pub root-IsPlain : IsPlain root disk
unfolding plain_check
root-IsPlain = plain_check_sound root disk refl

pub source-IsPlain : IsPlain source disk
unfolding plain_check
source-IsPlain = plain_check_sound source disk refl
