-- ===== src/Text/Utf8.antt =====
-- `new TextEncoder().encode(s)`: UTF-8 of a string of UTF-16 code units, where a lone surrogate
-- becomes U+FFFD.
use litefunctions.Prelude.{
  ℕ, ◌+◌, ◌-◌, ◌*◌, ◌/◌, ◌%◌, ◌<◌, ◌≡◌, refl, Bool, true, false, ◌&&◌, ◌||◌, List, [], ◌∷◌, ◌++◌,
  ltb, leb, if◌then◌else◌, arith, All, All-append,
}
use litefunctions.Text.{Text, codes}

abbrev pub Bytes : Type 0
Bytes = List ℕ

abbrev pub is_high : ℕ → Bool
is_high u = leb 0xd800 u && ltb u 0xdc00

abbrev pub is_low : ℕ → Bool
is_low u = leb 0xdc00 u && ltb u 0xe000

abbrev pub lone : ℕ → ℕ
lone u = if is_high u || is_low u then 0xfffd else u

abbrev pub pair_point : ℕ → ℕ → ℕ
pair_point u v = 0x10000 + (u - 0xd800) * 1024 + (v - 0xdc00)

unfoldable pub code_points : Text → List ℕ
code_points [] = []
code_points (u ∷ []) = lone u ∷ []
code_points (u ∷ v ∷ s) =
    let paired = code_points s in
    let single = code_points (v ∷ s) in
    if is_high u && is_low v then pair_point u v ∷ paired else lone u ∷ single

-- Whether every surrogate stands in a pair, so that no code point is lost.
unfoldable pub is_well_formed : Text → Bool
is_well_formed [] = true
is_well_formed (u ∷ []) = if is_high u || is_low u then false else true
is_well_formed (u ∷ v ∷ s) =
    let paired = is_well_formed s in
    let single = is_well_formed (v ∷ s) in
    if is_high u && is_low v then paired else if is_high u || is_low u then false else single

unfoldable pub point_bytes : ℕ → Bytes
point_bytes n =
    if ltb n 0x80
    then n ∷ []
    else if ltb n 0x800
    then (0xc0 + n / 64) ∷ (0x80 + n % 64) ∷ []
    else if ltb n 0x10000
    then (0xe0 + n / 4096) ∷ (0x80 + n / 64 % 64) ∷ (0x80 + n % 64) ∷ []
    else (0xf0 + n / 262144) ∷ (0x80 + n / 4096 % 64) ∷ (0x80 + n / 64 % 64) ∷ (0x80 + n % 64) ∷ []

unfoldable pub points_bytes : List ℕ → Bytes
unfolding point_bytes
points_bytes [] = []
points_bytes (n ∷ ns) = point_bytes n ++ points_bytes ns

unfoldable pub encode : Text → Bytes
unfolding points_bytes code_points
encode s = points_bytes (code_points s)

-- The code units are 16 bits wide.
abbrev pub IsText : Text → Type 0
IsText = All (λ u. u < 0x10000)

abbrev pub IsBytes : Bytes → Type 0
IsBytes = All (λ b. b < 256)

code_points-bound : (s : Text) → IsText s → All (λ n. n < 0x110000) (code_points s)
unfolding code_points
code_points-bound [] h = tt
code_points-bound (u ∷ []) h = ground arith
code_points-bound (u ∷ v ∷ s) (p, (q, h)) =
    ground (arith, code_points-bound s h, code_points-bound (v ∷ s) (q, h))

point_bytes-IsBytes : (n : ℕ) → n < 0x110000 → IsBytes (point_bytes n)
unfolding point_bytes
point_bytes-IsBytes n h = ground arith

points_bytes-IsBytes : (ns : List ℕ) → All (λ n. n < 0x110000) ns → IsBytes (points_bytes ns)
unfolding points_bytes
points_bytes-IsBytes [] h = tt
points_bytes-IsBytes (n ∷ ns) (p, h) =
    All-append _ (point_bytes n) _ (point_bytes-IsBytes n p) (points_bytes-IsBytes ns h)

pub encode-IsBytes : (s : Text) → IsText s → IsBytes (encode s)
unfolding encode
encode-IsBytes s h = points_bytes-IsBytes (code_points s) (code_points-bound s h)

encode_tests :
    (encode (codes "Az") ≡ 65 ∷ 122 ∷ [])
    × (encode (0xe9 ∷ []) ≡ 0xc3 ∷ 0xa9 ∷ [])
    × (encode (0xd83d ∷ 0xde00 ∷ []) ≡ 0xf0 ∷ 0x9f ∷ 0x98 ∷ 0x80 ∷ [])
    × (encode (0xd83d ∷ []) ≡ 0xef ∷ 0xbf ∷ 0xbd ∷ [])
unfolding encode
encode_tests = (refl, refl, refl, refl)
