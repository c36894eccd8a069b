-- ===== src/Functions/Repo/Credentials.antt =====
-- The clone URL: who it authenticates as, and where the token goes when the command fails.
use litefunctions.Prelude.{
  ℕ, ◌≡◌, ◌≢◌, refl, ◌∙◌, subst, inl, inr, true, List, [], ◌∷◌, ◌++◌, if◌then◌else◌, ◌==◌, Option,
  none, some, All-append, arith, append_assoc,
}
use litefunctions.Prelude.Exec.{ok, err, Result-cases}
use litefunctions.Text.{Text, codes, join, includes, strip_prefix}
use litefunctions.Text.Split.{Lacks}
use litefunctions.Text.Search.{strip_prefix-append, includes-append, includes-part}
use litefunctions.Text.Utf8.{Bytes, IsText, encode, is_well_formed}
use litefunctions.Text.Percent.{
  encode_git_part, percent_decode, percent_decode-encode_git_part, encode_git_part-Lacks,
  encode_git_part-ok,
}
use litefunctions.Conf.{Settings}
use litefunctions.World.{World, Engine, Exited, Url}
use litefunctions.Fs.{Fs, path_text}
use litefunctions.Functions.Repo.{
  or_default, repo_url, repo_url_for, with_credentials, command_failed, clone, repo_path,
}

-- The text in front of the first `c`, and what stands behind it.
unfoldable pub cut_first : ℕ → Text → Option (Text × Text)
cut_first c [] = none
cut_first c (d ∷ s) =
    let rest = cut_first c s in
    if d == c then some ([], s) else elim rest [ none ↦ none | some (a, b) ↦ some (d ∷ a, b) ]

-- The text in front of the last `c`, and what stands behind it.
unfoldable pub cut_last : ℕ → Text → Option (Text × Text)
cut_last c [] = none
cut_last c (d ∷ s) = elim (cut_last c s) [
  | some (a, b) ↦ some (d ∷ a, b)
  | none ↦ if d == c then some ([], s) else none
]

infixl 10 ◌>>=o◌
abbrev ◌>>=o◌ {ℓ κ} : {A : Type ℓ} {B : Type κ} → Option A → (A → Option B) → Option B
none >>=o f = none
some a >>=o f = f a

-- The credentials of a URL as the URL standard reads them: behind the first "//" the authority
-- goes up to the next "/"; the last "@" in it ends the userinfo, whose first ":" ends the user.
unfoldable pub credentials : Text → Option (Bytes × Bytes)
unfolding cut_first cut_last percent_decode
credentials url = cut_first b'/' url >>=o λ (_, slashed).
    strip_prefix (codes "/") slashed >>=o λ rest. cut_first b'/' rest >>=o λ (authority, _).
    cut_last b'@' authority >>=o λ (userinfo, _). cut_first b':' userinfo >>=o λ (user, password).
    some (percent_decode user, percent_decode password)

cut_first-append : (c : ℕ) (a b : Text) → Lacks c a → cut_first c (a ++ c ∷ b) ≡ some (a, b)
unfolding cut_first
cut_first-append c [] b h = ground arith
cut_first-append c (d ∷ a) b (p, h) = ground (arith, cut_first-append c a b h)

cut_last_of_Lacks : (c : ℕ) (s : Text) → Lacks c s → cut_last c s ≡ none
unfolding cut_last
cut_last_of_Lacks c [] h = refl
cut_last_of_Lacks c (d ∷ s) (p, h) = ground (arith, cut_last_of_Lacks c s h)

cut_last-append : (c : ℕ) (a b : Text) → Lacks c b → cut_last c (a ++ c ∷ b) ≡ some (a, b)
unfolding cut_last
cut_last-append c [] b h = ground (arith, cut_last_of_Lacks c b h)
cut_last-append c (d ∷ a) b h = ground (arith, cut_last-append c a b h)

-- Reading the credentials of a URL that was put together from parts that keep to their places.
credentials-with_credentials :
    (path user token : Text) (base : Url)
    → Lacks b'/' base.protocol
    → Lacks b'/' base.host
    → Lacks b'@' base.host
    → Lacks b':' user × Lacks b'/' user
    → Lacks b'/' token
    → credentials (with_credentials path base user token)
      ≡ some (percent_decode user, percent_decode token)
unfolding credentials
credentials-with_credentials path user token base hp hs ha (uc, us) ts = ground (
  arith,
  cut_first-append b'/' base.protocol (b'/' ∷ rest) hp,
  strip_prefix-append (codes "/") rest,
  cut_first-append b'/' authority path authority-Lacks,
  split_authority,
  cut_last-append b'@' userinfo base.host ha,
  cut_first-append b':' user token uc,
  append_assoc user (b':' ∷ token) (b'@' ∷ base.host),
)
  where
    userinfo : Text
    userinfo = user ++ b':' ∷ token

    authority : Text
    authority = userinfo ++ b'@' ∷ base.host

    rest : Text
    rest = user ++ (codes ":" ++ (token ++ (codes "@" ++ (base.host ++ (codes "/" ++ path)))))

    split_authority : rest ≡ authority ++ b'/' ∷ path
    split_authority = simp append_assoc

    authority-Lacks : Lacks b'/' authority
    authority-Lacks =
        All-append _ userinfo _ (All-append _ user _ us (omega arith, ts)) (omega arith, hs)

repo_url_for-with_credentials :
    (e : Engine) (s : Settings) (base : Url) (owner token : Text) {user secret : Text}
    → e.new_url s.vcs_base_url ≡ ok base
    → token ≢ []
    → encode_git_part owner ≡ ok user
    → encode_git_part token ≡ ok secret
    → repo_url_for e s owner token
      ≡ ok (with_credentials (owner ++ (codes "/" ++ s.project)) base user secret)
repo_url_for-with_credentials e s base owner [] parsed ne eu es = absurd (ne refl)
repo_url_for-with_credentials e s base owner (c ∷ token) parsed ne eu es =
    ground (arith, parsed, eu, es)

owner-IsText : (s : Text) → IsText s → IsText (or_default s (codes "git"))
owner-IsText [] h = omega arith
owner-IsText (c ∷ s) h = h

-- With a token set, `repoURL` gives a URL that authenticates as the owner with the token: a reader
-- of the URL gets the UTF-8 bytes of both back, whatever characters they hold. The owner is
-- GIT_USER, or "git" where that is empty. Both must hold no lone surrogate, and the base URL must
-- parse to a protocol and a host that hold no "/" and no "@".
pub credentials-repo_url :
    (e : Engine) (s : Settings) (base : Url)
    → e.new_url s.vcs_base_url ≡ ok base
    → Lacks b'/' base.protocol
    → Lacks b'/' base.host
    → Lacks b'@' base.host
    → IsText s.git_user
    → IsText s.git_token
    → is_well_formed (or_default s.git_user (codes "git")) ≡ true
    → is_well_formed s.git_token ≡ true
    → s.git_token ≢ []
    → (url : Text) × (repo_url e s ≡ ok url)
      × (credentials url ≡ some (encode (or_default s.git_user (codes "git")), encode s.git_token))
unfolding repo_url
credentials-repo_url e s base parsed hp hs ha tu ts wu ws ne =
    let owner = or_default s.git_user (codes "git") in
    let (user, eu) = encode_git_part-ok owner wu in
    let (secret, es) = encode_git_part-ok s.git_token ws in
    let tu' = owner-IsText s.git_user tu in
    (
      with_credentials (owner ++ (codes "/" ++ s.project)) base user secret,
      repo_url_for-with_credentials e s base owner s.git_token parsed ne eu es,
      rw
          (
            ← percent_decode-encode_git_part owner tu' eu,
            ← percent_decode-encode_git_part s.git_token ts es,
          )
          (credentials-with_credentials _ user secret base hp hs ha
            (encode_git_part-Lacks owner tu' eu) (encode_git_part-Lacks s.git_token ts es).1),
    )

-- `git clone` of the URL into the repository path
abbrev pub clone_command : Settings → Text → List Text
clone_command s url = codes "git" ∷ codes "clone" ∷ url ∷ path_text (repo_path s) ∷ []

command_failed-includes :
    (s : Settings) (url : Text) (x : Exited)
    → includes url (command_failed (clone_command s url) x) ≡ true
unfolding join
command_failed-includes s url x =
    rw (append_assoc url) (includes-append (codes "Error: command failed (git clone ") url _)

-- The password part of a URL's userinfo.
abbrev pub password : Text → Text
password secret = codes ":" ++ (secret ++ codes "@")

-- A clone URL that a token is set for holds the token, percent-encoded, as the password.
repo_url_for-token :
    (e : Engine) (s : Settings) (owner token : Text) {url secret : Text}
    → token ≢ []
    → encode_git_part token ≡ ok secret
    → repo_url_for e s owner token ≡ ok url
    → (a : Text) × (b : Text) × (url ≡ a ++ (password secret ++ b))
repo_url_for-token e s owner [] given es h = absurd (given refl)
repo_url_for-token e s owner (c ∷ token) {url} {secret} given es h =
    elim (Result-cases (e.new_url s.vcs_base_url)) [
      | inr (x, bad) ↦ absurd (cc (rw bad at h))
      | inl (base, parsed) ↦ elim (Result-cases (encode_git_part owner)) [
        | inr (x, bad) ↦ absurd (cc (rw (parsed, bad) at h))
        | inl (user, eu) ↦
            let path = codes "/" ++ (owner ++ (codes "/" ++ s.project)) in
            let built : url
                ≡ with_credentials (owner ++ (codes "/" ++ s.project)) base user secret =
              cc (
                h,
                repo_url_for-with_credentials e s base owner (c ∷ token) {user = user}
                    {secret = secret} parsed given eu es,
              ) in
            (base.protocol ++ (codes "//" ++ user), base.host ++ path, built ∙ simp append_assoc)
      ]
    ]

-- A clone that git ends with an error gives the token away. Where a token is set, the text that is
-- thrown holds the token, percent-encoded, between the ":" and the "@" of the clone URL. The token
-- can be encoded, which is so where it holds no lone surrogate.
pub clone_failure-includes :
    (e : Engine) (s : Settings) (w : World) (x : Exited) (fs : Fs) {url secret : Text}
    → s.git_token ≢ []
    → encode_git_part s.git_token ≡ ok secret
    → repo_url e s ≡ ok url
    → e.spawn (clone_command s url) w.fs ≡ (ok x, fs)
    → x.code ≢ 0
    → (text : Text) × (clone e s w ≡ (err text, record w { fs = fs }))
      × (includes (password secret) text ≡ true)
unfolding clone repo_url
clone_failure-includes e s w x fs {url} {secret} given es u ran bad =
    let (a, b, parts) =
      repo_url_for-token e s (or_default s.git_user (codes "git")) s.git_token {url = url}
        {secret = secret} given es u in
    let text = command_failed (clone_command s url) x in
    (
      text,
      ground (arith, u, ran),
      includes-part a (password secret) b text
          (subst (λ t. includes t text ≡ true) parts (command_failed-includes s url x)),
    )
