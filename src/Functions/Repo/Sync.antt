-- ===== src/Functions/Repo/Sync.antt =====
-- `syncRepo` (runtimes/ts/pkg/functions.ts): when it returns, and what the clone URL is made of.
use litefunctions.Prelude.{◌≡◌, ◌≢◌, ◌↔◌, refl, true, [], ◌∷◌, arith, ◌⊎◌, inl, inr}
use litefunctions.Prelude.Exec.{Result, ok, Result-cases}
use litefunctions.Text.{Text, codes}
use litefunctions.Conf.{Settings}
use litefunctions.Fs.{file_exists}
use litefunctions.World.{World, Engine, Url}
use litefunctions.Functions.Repo.{
  repo_path, git_in, run, reset_to, reset, update, sync_repo, repo_url, repo_url_for, or_default,
}

abbrev pub fetch : Engine → Settings → World → Result (Unit {0}) × World
fetch e s = run e (git_in (repo_path s) (codes "fetch" ∷ codes "--all" ∷ codes "--prune" ∷ []))

-- Where the repository was cloned before, the sync returns exactly if the fetch succeeds, and then
-- the reset to main does or, after it has failed, the reset to master.
pub sync_repo-ok :
    (e : Engine) (s : Settings) (w : World)
    → file_exists (repo_path s) w.fs ≡ true
    → ((sync_repo e s w).0 ≡ ok tt) ↔ (
        ((fetch e s w).0 ≡ ok tt)
        × (((reset_to e s (codes "origin/main") (fetch e s w).1).0 ≡ ok tt)
            ⊎ ((reset_to e s
                  (codes "origin/master")
                  (reset_to e s (codes "origin/main") (fetch e s w).1).1).0
                ≡ ok tt)))
unfolding sync_repo update reset
sync_repo-ok e s w there = elim (Result-cases (fetch e s w).0) [
  | inr (x, bad) ↦ ground (arith, there, bad)
  | inl (u, good) ↦ elim (Result-cases (reset_to e s (codes "origin/main") (fetch e s w).1).0) [
    | inl (v, main) ↦ ground (arith, there, good, main)
    | inr (x, failure) ↦ ground (arith, there, good, failure)
  ]
]

repo_url_for-base :
    (e : Engine) (s : Settings) (base owner token : Text) {u v : Url}
    → e.new_url base ≡ ok u
    → e.new_url s.vcs_base_url ≡ ok v
    → u.protocol ≡ v.protocol
    → u.host ≡ v.host
    → token ≢ []
    → repo_url_for e (record s { vcs_base_url = base }) owner token ≡ repo_url_for e s owner token
repo_url_for-base e s base owner [] this that protocol host given = absurd (given refl)
repo_url_for-base e s base owner (c ∷ token) this that protocol host given =
    rw (this, that) (rw (protocol, host) refl)

-- With a token set, only the protocol and the host of VCS_BASE_URL count: two base URLs that parse to
-- the same two give the same clone URL, or the same error, though their paths may differ. So a path in
-- the base URL is dropped.
pub repo_url-base :
    (e : Engine) (s : Settings) (base : Text) {u v : Url}
    → e.new_url base ≡ ok u
    → e.new_url s.vcs_base_url ≡ ok v
    → u.protocol ≡ v.protocol
    → u.host ≡ v.host
    → s.git_token ≢ []
    → repo_url e (record s { vcs_base_url = base }) ≡ repo_url e s
unfolding repo_url
repo_url-base e s base {u} {v} this that protocol host given =
    repo_url_for-base e s base (or_default s.git_user (codes "git")) s.git_token {u = u} {v = v}
      this that protocol host given
