-- ===== src/Text/Percent.antt =====
-- `encodeURIComponent`, and `encodeGitPart` of runtimes/ts/pkg/functions.ts over it.
use litefunctions.Prelude.{
  ℕ, ◌+◌, ◌-◌, ◌*◌, ◌/◌, ◌%◌, ◌<◌, ◌≡◌, ◌≢◌, refl, Bool, true, false, ◌&&◌, ◌||◌, [], ◌∷◌, ◌++◌,
  Option, none, some, ltb, leb, ◌==◌, if◌then◌else◌, arith, All-append, Bool-cases, inl, inr,
}
use litefunctions.Prelude.Exec.{Result, ok, err}
use litefunctions.Text.{Text, codes}
use litefunctions.Text.Split.{Lacks}
use litefunctions.Text.Utf8.{Bytes, IsBytes, IsText, encode, is_well_formed, encode-IsBytes}

abbrev is_alnum : ℕ → Bool
is_alnum c = leb b'A' c && leb c b'Z' || leb b'a' c && leb c b'z' || leb b'0' c && leb c b'9'

-- what `encodeURIComponent` leaves as it is: letters, digits and - _ . ! ~ * ' ( )
unreserved : ℕ → Bool
unreserved c =
    is_alnum c
    || c == b'-'
    || c == b'_'
    || c == b'.'
    || c == b'!'
    || c == b'~'
    || c == b'*'
    || c == 39
    || c == b'('
    || c == b')'

hex : ℕ → ℕ
hex n = if ltb n 10 then b'0' + n else b'A' + (n - 10)

escape_byte : ℕ → Text
unfolding unreserved hex
escape_byte b = if unreserved b then b ∷ [] else b'%' ∷ hex (b / 16) ∷ hex (b % 16) ∷ []

escape_bytes : Bytes → Text
unfolding escape_byte
escape_bytes [] = []
escape_bytes (b ∷ bs) = escape_byte b ++ escape_bytes bs

-- The text of the error is the engine's.
abbrev pub uri_error : Text
uri_error = codes "URIError: URI malformed"

unfoldable pub encode_uri_component : Text → Result Text
unfolding escape_bytes encode is_well_formed
encode_uri_component s = if is_well_formed s then ok (escape_bytes (encode s)) else err uri_error

abbrev is_40 : ℕ → ℕ → ℕ → Bool
is_40 a b c = a == b'%' && b == b'4' && c == b'0'

-- `.replace(/%40/g, "@")`
unfoldable pub restore_at : Text → Text
restore_at [] = []
restore_at (a ∷ []) = a ∷ []
restore_at (a ∷ b ∷ []) = a ∷ b ∷ []
restore_at (a ∷ b ∷ c ∷ s) =
    let found = restore_at s in
    let missed = restore_at (b ∷ c ∷ s) in if is_40 a b c then b'@' ∷ found else a ∷ missed

unfoldable pub encode_git_part : Text → Result Text
unfolding encode_uri_component restore_at
encode_git_part value = elim (encode_uri_component value) [
  | ok s ↦ ok (restore_at s)
  | err e ↦ err e
]

unhex : ℕ → Option ℕ
unhex c =
    if leb b'0' c && leb c b'9'
    then some (c - b'0')
    else if leb b'A' c && leb c b'F'
    then some (c - b'A' + 10)
    else if leb b'a' c && leb c b'f'
    then some (c - b'a' + 10)
    else none

abbrev escaped : ℕ → Option ℕ → Option ℕ → Option ℕ
escaped a (some h) (some l) = if a == b'%' then some (h * 16 + l) else none
escaped a _ _ = none

-- Percent-decoding as the URL standard describes it: what a git server sees of the userinfo.
unfoldable pub percent_decode : Text → Bytes
unfolding unhex
percent_decode [] = []
percent_decode (a ∷ []) = a ∷ []
percent_decode (a ∷ b ∷ []) = a ∷ b ∷ []
percent_decode (a ∷ b ∷ c ∷ s) =
    let skipped = percent_decode s in
    let plain = percent_decode (b ∷ c ∷ s) in
    elim (escaped a (unhex b) (unhex c)) [ some n ↦ n ∷ skipped | none ↦ a ∷ plain ]

percent_decode-plain : (a : ℕ) (s : Text) → a ≢ b'%' → percent_decode (a ∷ s) ≡ a ∷ percent_decode s
unfolding percent_decode
percent_decode-plain a [] h = refl
percent_decode-plain a (b ∷ []) h = refl
percent_decode-plain a (b ∷ c ∷ s) h = ground arith

unhex-hex : (n : ℕ) → n < 16 → unhex (hex n) ≡ some n
unfolding unhex hex
unhex-hex n h = ground arith

percent_decode-hex :
    (b : ℕ) (s : Text)
    → b < 256
    → percent_decode (b'%' ∷ hex (b / 16) ∷ hex (b % 16) ∷ s) ≡ b ∷ percent_decode s
unfolding percent_decode
percent_decode-hex b s h =
    ground (arith, unhex-hex (b / 16) (omega arith), unhex-hex (b % 16) (omega arith))

restore_at-plain : (a : ℕ) (s : Text) → a ≢ b'%' → restore_at (a ∷ s) ≡ a ∷ restore_at s
unfolding restore_at
restore_at-plain a [] h = refl
restore_at-plain a (b ∷ []) h = refl
restore_at-plain a (b ∷ c ∷ s) h = ground arith

hex-ne : (n : ℕ) → n < 16 → hex n ≢ b'%'
unfolding hex
hex-ne n h = ground arith

hex_40 : (b : ℕ) → b < 256 → b ≢ b'@' → is_40 b'%' (hex (b / 16)) (hex (b % 16)) ≡ false
unfolding hex
hex_40 b h n = ground arith

restore_at-hex :
    (b : ℕ) (s : Text)
    → b < 256
    → b ≢ b'@'
    → restore_at (b'%' ∷ hex (b / 16) ∷ hex (b % 16) ∷ s)
      ≡ b'%' ∷ hex (b / 16) ∷ hex (b % 16) ∷ restore_at s
unfolding restore_at
restore_at-hex b s h n = rw (hex_40 b h n) (
    ground (
      arith,
      restore_at-plain (hex (b / 16)) (hex (b % 16) ∷ s) (hex-ne (b / 16) (omega arith)),
      restore_at-plain (hex (b % 16)) s (hex-ne (b % 16) (omega arith)),
    ))

restore_at-at : (s : Text) → restore_at (b'%' ∷ b'4' ∷ b'0' ∷ s) ≡ b'@' ∷ restore_at s
unfolding restore_at
restore_at-at s = refl

unreserved-ne : (b : ℕ) → unreserved b ≡ true → (b ≢ b'%') × (b ≢ b':') × (b ≢ b'/') × (b ≢ b'@')
unfolding unreserved
unreserved-ne b h = ground arith

-- what one byte becomes under both steps
git_byte : ℕ → Text
unfolding escape_byte
git_byte b = if b == b'@' then b'@' ∷ [] else escape_byte b

git_bytes : Bytes → Text
unfolding git_byte
git_bytes [] = []
git_bytes (b ∷ bs) = git_byte b ++ git_bytes bs

restore_at-escape_byte :
    (b : ℕ) (s : Text) → b < 256 → restore_at (escape_byte b ++ s) ≡ git_byte b ++ restore_at s
unfolding git_byte
restore_at-escape_byte b s h = elim (Bool-cases (unreserved b)) [
  | inl plain ↦
      ground (arith, unreserved-ne b plain, restore_at-plain b s (unreserved-ne b plain).0)
  | inr special ↦ ground (arith, restore_at-at s, λ (n : b ≢ b'@'). restore_at-hex b s h n)
]

restore_at-escape_bytes : (bs : Bytes) → IsBytes bs → restore_at (escape_bytes bs) ≡ git_bytes bs
unfolding escape_bytes git_bytes
restore_at-escape_bytes [] h = unfold restore_at in refl
restore_at-escape_bytes (b ∷ bs) (p, h) =
    rw (restore_at-escape_byte b (escape_bytes bs) p) (rw (restore_at-escape_bytes bs h))

percent_decode-git_byte :
    (b : ℕ) (s : Text) → b < 256 → percent_decode (git_byte b ++ s) ≡ b ∷ percent_decode s
unfolding git_byte
percent_decode-git_byte b s h = elim (Bool-cases (unreserved b)) [
  | inl plain ↦
      ground (arith, unreserved-ne b plain, percent_decode-plain b s (unreserved-ne b plain).0)
  | inr special ↦
      ground
        (arith, percent_decode-hex b s h, λ (e : b ≡ b'@'). percent_decode-plain b s (omega arith))
]

percent_decode-git_bytes : (bs : Bytes) → IsBytes bs → percent_decode (git_bytes bs) ≡ bs
unfolding git_bytes
percent_decode-git_bytes [] h = unfold percent_decode in refl
percent_decode-git_bytes (b ∷ bs) (p, h) =
    rw (percent_decode-git_byte b (git_bytes bs) p) (rw (percent_decode-git_bytes bs h))

git_byte-Lacks : (b : ℕ) → b < 256 → Lacks b':' (git_byte b) × Lacks b'/' (git_byte b)
unfolding git_byte hex
git_byte-Lacks b h = ground (arith, unreserved-ne b)

git_bytes-Lacks : (bs : Bytes) → IsBytes bs → Lacks b':' (git_bytes bs) × Lacks b'/' (git_bytes bs)
unfolding git_bytes
git_bytes-Lacks [] h = (tt, tt)
git_bytes-Lacks (b ∷ bs) (p, h) =
    let (c, d) = git_byte-Lacks b p in
    let (cs, ds) = git_bytes-Lacks bs h in
    (All-append _ (git_byte b) _ c cs, All-append _ (git_byte b) _ d ds)

encode_git_part-eq :
    (s : Text) {t : Text} → IsText s → encode_git_part s ≡ ok t → t ≡ git_bytes (encode s)
unfolding encode_git_part
encode_git_part-eq s h e = ground (arith, restore_at-escape_bytes (encode s) (encode-IsBytes s h))

-- An encoded part holds no ":" and no "/", so that it cannot end the user name or the authority of
-- the URL that it is put into.
pub encode_git_part-Lacks :
    (s : Text) {t : Text} → IsText s → encode_git_part s ≡ ok t → Lacks b':' t × Lacks b'/' t
encode_git_part-Lacks s h e =
    rw (encode_git_part-eq s h e) (git_bytes-Lacks (encode s) (encode-IsBytes s h))

-- Percent-decoding an encoded part gives the UTF-8 bytes of the value, with every "%40" of the
-- value itself kept.
pub percent_decode-encode_git_part :
    (s : Text) {t : Text} → IsText s → encode_git_part s ≡ ok t → percent_decode t ≡ encode s
percent_decode-encode_git_part s h e =
    rw (encode_git_part-eq s h e) (percent_decode-git_bytes (encode s) (encode-IsBytes s h))

-- Only a lone surrogate makes the encoding fail.
pub encode_git_part-ok :
    (s : Text) → is_well_formed s ≡ true → (t : Text) × (encode_git_part s ≡ ok t)
unfolding encode_git_part
encode_git_part-ok s h = (restore_at (escape_bytes (encode s)), ground (arith, h))
