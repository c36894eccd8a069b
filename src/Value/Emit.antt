-- ===== src/Value/Emit.antt =====
-- `asBytes`, and what `invokeModule` yields for the value that `handle` gave
-- (runtimes/ts/pkg/functions.ts).
pub mod Laws
use litefunctions.Prelude.{ℕ, List, [], ◌∷◌, ◌++◌, Bool, true, false}
use litefunctions.Prelude.Exec.{Result, ok, err}
use litefunctions.Text.{Text, codes, decimal}
use litefunctions.Text.Utf8.{Bytes, encode}
use litefunctions.Value.{
  View, view_bytes, Json, null, bool, num, str, arr, obj, Jsons, nil, cons, stringify, Stringified,
  a_text, no_text, throws, Ending, finished, failed, Value, undefined, json, bytes, buffer,
  response, async_iterable, iterable, opaque, Items, none_left, item,
}

-- `new TextEncoder().encode(JSON.stringify(value))`: encoding `undefined` gives no bytes.
abbrev pub encode_json : Stringified → Result Bytes
encode_json (a_text t) = ok (encode t)
encode_json no_text = ok []
encode_json (throws e) = err e

abbrev pub sync_only : Text
sync_only = codes "response objects are only supported in sync mode"

unfoldable pub as_bytes : Value → Result Bytes
as_bytes undefined = ok []
as_bytes (json null) = ok []
as_bytes (bytes v) = ok (view_bytes v)
as_bytes (buffer b) = ok b
as_bytes (response _) = ok (encode sync_only)
as_bytes (json (str s)) = ok (encode s)
as_bytes (json j) = ok (encode (stringify j))
as_bytes (async_iterable _ _ s) = encode_json s
as_bytes (iterable _ _ s) = encode_json s
as_bytes (opaque s) = encode_json s

-- What the generator yields, in order, and how it ends.
pub record Emission : Type 0 where
  pub outputs : List Bytes
  pub ending : Ending

abbrev pub fails : Text → Emission
fails e = record { outputs = []; ending = failed e }

abbrev pub yields : Bytes → Emission → Emission
yields b m = record { outputs = b ∷ m.outputs; ending = m.ending }

abbrev pub yields_one : Result Bytes → Emission
yields_one (ok b) = record { outputs = b ∷ []; ending = finished }
yields_one (err e) = fails e

abbrev yields_next : Result Bytes → Emission → Emission
yields_next (ok b) rest = yields b rest
yields_next (err e) rest = fails e

-- The loops `for await (…) yield asBytes(item)` and `for (…) yield asBytes(item)`.
unfoldable pub emit_items : Items → Ending → Emission
unfolding as_bytes
emit_items none_left ending = record { outputs = []; ending = ending }
emit_items (item v vs) ending = yields_next (as_bytes v) (emit_items vs ending)

-- What a `for` loop reads of an array, and of a `Uint8Array`: its elements, which are numbers.
unfoldable pub json_items : Jsons → Items
json_items nil = none_left
json_items (cons j js) = item (json j) (json_items js)

unfoldable pub byte_items : Bytes → Items
byte_items [] = none_left
byte_items (b ∷ bs) = item (json (num (decimal b))) (byte_items bs)

-- `invokeModule` from `if (result == null)` on. A `Uint8Array` and an array have an iterator; a
-- string has one too, and is excepted.
unfoldable pub emit : Value → Emission
unfolding emit_items json_items byte_items as_bytes
emit undefined = record { outputs = [] ∷ []; ending = finished }
emit (json null) = record { outputs = [] ∷ []; ending = finished }
emit (response body) = yields_one body
emit (async_iterable vs ending _) = emit_items vs ending
emit (iterable vs ending _) = emit_items vs ending
emit (bytes v) = emit_items (byte_items (view_bytes v)) finished
emit (json (arr js)) = emit_items (json_items js) finished
emit v = yields_one (as_bytes v)
