-- ===== src/Functions/Repo.antt =====
-- The git repository of runtimes/ts/pkg/functions.ts: its URL, the commands, and `syncRepo`.
pub mod Credentials
pub mod Sync
use litefunctions.Prelude.{
  ℕ, Bool, true, false, List, [], ◌∷◌, ◌++◌, if◌then◌else◌, ◌==◌, Option, none, some,
}
use litefunctions.Prelude.Exec.{
  Result, ok, err, Exec, pure, throw, lift, gets, ◌>>=◌, ◌>>◌, continue, attempt,
}
use litefunctions.Text.{Text, codes, join, text_eq}
use litefunctions.Text.Percent.{encode_git_part}
use litefunctions.Conf.{Settings}
use litefunctions.Fs.{FilePath, Fs, path_join, path_text, file_exists}
use litefunctions.World.{World, Engine, Exited, Url, on_fs}

-- `repoPath`
unfoldable pub repo_path : Settings → FilePath
unfolding path_join
repo_path s = path_join (path_join [] (codes "tmp")) s.project

-- `repoFunctionsPath`
unfoldable pub repo_functions_path : Settings → FilePath
unfolding repo_path path_join
repo_functions_path s = path_join (path_join (repo_path s) (codes "functions")) (codes "ts")

-- `runtimeFunctionsPath`
unfoldable pub runtime_functions_path : Engine → FilePath
unfolding path_join
runtime_functions_path e = path_join e.dir (codes "functions")

-- `a || b` on strings
abbrev pub or_default : Text → Text → Text
or_default [] b = b
or_default (c ∷ a) b = c ∷ a

infixl 10 ◌>>=r◌
abbrev ◌>>=r◌ {ℓ κ} : {A : Type ℓ} {B : Type κ} → Result A → (A → Result B) → Result B
ok a >>=r f = f a
err e >>=r f = err e

abbrev pub with_credentials : Text → Url → Text → Text → Text
with_credentials project_path base user token =
    base.protocol
    ++ (codes "//"
        ++ (user
            ++ (codes ":" ++ (token ++ (codes "@" ++ (base.host ++ (codes "/" ++ project_path)))))))

abbrev repo_url_for : Engine → Settings → Text → Text → Result Text
repo_url_for e s owner [] =
    ok (s.vcs_base_url ++ (codes "/" ++ (owner ++ (codes "/" ++ s.project))))
repo_url_for e s owner (c ∷ token) = e.new_url s.vcs_base_url >>=r λ base.
    encode_git_part owner >>=r λ user. encode_git_part (c ∷ token) >>=r λ secret.
    ok (with_credentials (owner ++ (codes "/" ++ s.project)) base user secret)

-- `repoURL`
unfoldable pub repo_url : Engine → Settings → Result Text
unfolding encode_git_part
repo_url e s = repo_url_for e s (or_default s.git_user (codes "git")) s.git_token

abbrev pub command_failed : List Text → Exited → Text
command_failed cmd x =
    codes "Error: command failed ("
    ++ (join (codes " ") cmd
        ++ (codes ")"
            ++ (10 ∷ codes "stdout: " ++ (x.stdout ++ (10 ∷ codes "stderr: " ++ x.stderr)))))

abbrev pub exit_result : List Text → Exited → Result (Unit {0})
exit_result cmd x = if x.code == 0 then ok tt else err (command_failed cmd x)

-- `run`
unfoldable pub run : Engine → List Text → Exec World (Unit {0})
unfolding join
run e cmd = do x ← on_fs (e.spawn cmd); lift (exit_result cmd x)

abbrev pub git_in : FilePath → List Text → List Text
git_in p args = codes "git" ∷ codes "-C" ∷ path_text p ∷ args

abbrev pub reset_to : Engine → Settings → Text → Exec World (Unit {0})
reset_to e s branch = run e (git_in (repo_path s) (codes "reset" ∷ codes "--hard" ∷ branch ∷ []))

-- `try { reset to main } catch { reset to master }`
unfoldable pub reset : Engine → Settings → Exec World (Unit {0})
unfolding run repo_path path_text
reset e s w =
    let (r, w') = reset_to e s (codes "origin/main") w in
    attempt (λ _. reset_to e s (codes "origin/master")) pure r w'

unfoldable pub update : Engine → Settings → Exec World (Unit {0})
unfolding run reset
update e s = do
  run e (git_in (repo_path s) (codes "fetch" ∷ codes "--all" ∷ codes "--prune" ∷ []))
  reset e s

unfoldable pub clone : Engine → Settings → Exec World (Unit {0})
unfolding run repo_url repo_path path_text
clone e s = do
  url ← lift (repo_url e s)
  run e (codes "git" ∷ codes "clone" ∷ url ∷ path_text (repo_path s) ∷ [])

-- `syncRepo`
unfoldable pub sync_repo : Engine → Settings → Exec World (Unit {0})
unfolding file_exists update clone
sync_repo e s = do
  there ← gets (λ (w : World). file_exists (repo_path s) w.fs)
  if there then update e s else clone e s
