-- ===== src/Value.antt =====
-- The values that a user's `handle` returns or yields, as runtimes/ts/pkg/functions.ts tells them
-- apart, and `JSON.stringify` on plain values.
pub mod Emit
use litefunctions.Prelude.{
  ℕ, ◌+◌, ◌-◌, ◌/◌, ◌%◌, Bool, true, false, ◌&&◌, ◌||◌, List, [], ◌∷◌, ◌++◌, Option, none, some,
  ltb, leb, ◌==◌, if◌then◌else◌, take, drop,
}
use litefunctions.Prelude.Exec.{Result, ok, err}
use litefunctions.Text.{Text, codes, decimal}
use litefunctions.Text.Utf8.{Bytes, is_high, is_low}

-- A `Uint8Array`: a window on an array buffer.
pub record View : Type 0 where
  pub buffer : Bytes
  pub byte_offset : ℕ
  pub byte_length : ℕ

abbrev pub view_bytes : View → Bytes
view_bytes v = take v.byte_length (drop v.byte_offset v.buffer)

-- `new Uint8Array(b)`, and what `TextEncoder` gives: a view of the whole buffer.
abbrev pub slice : ℕ → ℕ → Bytes → Bytes
slice from to b = take (to - from) (drop from b)

-- Plain data: what `JSON.stringify` prints as it is. A number is the text that it prints for it.
mutual
  pub data Json : Type 0 where
    null : Json
    bool : Bool → Json
    num : Text → Json
    str : Text → Json
    arr : Jsons → Json
    obj : Members → Json

  pub data Jsons : Type 0 where
    nil : Jsons
    cons : Json → Jsons → Jsons

  pub data Members : Type 0 where
    end : Members
    member : Text → Json → Members → Members

hex_lower : ℕ → ℕ
hex_lower n = if ltb n 10 then b'0' + n else b'a' + (n - 10)

unicode_escape : ℕ → Text
unfolding hex_lower
unicode_escape u =
    b'\\'
    ∷ b'u'
    ∷ hex_lower (u / 4096)
    ∷ hex_lower (u / 256 % 16)
    ∷ hex_lower (u / 16 % 16)
    ∷ hex_lower (u % 16)
    ∷ []

-- one code unit of a quoted string that is no surrogate
quote_unit : ℕ → Text
unfolding unicode_escape
quote_unit u =
    if u == 34
    then b'\\' ∷ 34 ∷ []
    else if u == b'\\'
    then b'\\' ∷ b'\\' ∷ []
    else if u == 8
    then b'\\' ∷ b'b' ∷ []
    else if u == 9
    then b'\\' ∷ b't' ∷ []
    else if u == 10
    then b'\\' ∷ b'n' ∷ []
    else if u == 12
    then b'\\' ∷ b'f' ∷ []
    else if u == 13
    then b'\\' ∷ b'r' ∷ []
    else if ltb u 32 || is_high u || is_low u
    then unicode_escape u
    else u ∷ []

-- A surrogate pair is kept, and a lone surrogate is escaped.
quote_units : Text → Text
unfolding quote_unit
quote_units [] = []
quote_units (u ∷ []) = quote_unit u
quote_units (u ∷ v ∷ s) =
    let paired = quote_units s in
    let single = quote_units (v ∷ s) in
    if is_high u && is_low v then u ∷ v ∷ paired else quote_unit u ++ single

unfoldable pub quote : Text → Text
unfolding quote_units
quote s = 34 ∷ (quote_units s ++ 34 ∷ [])

-- `JSON.stringify` of plain data
unfoldable mutual
  unfolding quote

  pub stringify : Json → Text
  stringify null = codes "null"
  stringify (bool true) = codes "true"
  stringify (bool false) = codes "false"
  stringify (num t) = t
  stringify (str s) = quote s
  stringify (arr nil) = codes "[]"
  stringify (arr (cons j js)) = codes "[" ++ (stringify j ++ stringify_items js)
  stringify (obj end) = codes "{}"
  stringify (obj (member k j ms)) =
      codes "{" ++ (quote k ++ (codes ":" ++ (stringify j ++ stringify_members ms)))

  pub stringify_items : Jsons → Text
  stringify_items nil = codes "]"
  stringify_items (cons j js) = codes "," ++ (stringify j ++ stringify_items js)

  pub stringify_members : Members → Text
  stringify_members end = codes "}"
  stringify_members (member k j ms) =
      codes "," ++ (quote k ++ (codes ":" ++ (stringify j ++ stringify_members ms)))

-- What `JSON.stringify` does with an object that is not plain: a text, `undefined` (a function or
-- a symbol), or an exception (a BigInt, a cycle).
pub data Stringified : Type 0 where
  a_text : Text → Stringified
  no_text : Stringified
  throws : Text → Stringified

-- How a sequence of values ends: by `done`, or by an exception.
pub data Ending : Type 0 where
  finished : Ending
  failed : Text → Ending

-- A value as `invokeModule` and `asBytes` tell it apart. Sequences are finite.
mutual
  pub data Value : Type 0 where
    undefined : Value
    json : Json → Value
    bytes : View → Value
    buffer : Bytes → Value
    response : Result Bytes → Value
    async_iterable : Items → Ending → Stringified → Value
    iterable : Items → Ending → Stringified → Value
    opaque : Stringified → Value

  pub data Items : Type 0 where
    none_left : Items
    item : Value → Items → Items
