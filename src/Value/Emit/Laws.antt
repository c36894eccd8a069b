-- ===== src/Value/Emit/Laws.antt =====
-- What each kind of result becomes on the wire.
use litefunctions.Prelude.{List, [], ◌∷◌, ◌++◌, ◌≡◌, refl, ap, map, arith, append-nil}
use litefunctions.Prelude.Exec.{Result, ok, err}
use litefunctions.Text.{Text, decimal}
use litefunctions.Text.Utf8.{Bytes, encode}
use litefunctions.Value.{
  View, view_bytes, stringify, Ending, finished, failed, Value, bytes, buffer, Items, none_left,
  item,
}
use litefunctions.Value.Emit.{as_bytes, emit, emit_items, byte_items}

-- The bytes of every item, while none throws.
unfoldable pub item_bytes : Items → Result (List Bytes)
item_bytes none_left = ok []
item_bytes (item v vs) = elim (as_bytes v) [
  | ok b ↦ elim (item_bytes vs) [ ok bs ↦ ok (b ∷ bs) | err e ↦ err e ]
  | err e ↦ err e
]

abbrev pub append_items : Items → Items → Items
append_items none_left ws = ws
append_items (item v vs) ws = item v (append_items vs ws)

item_bytes-cons :
    (v : Value) (vs : Items) {bs : List Bytes}
    → item_bytes (item v vs) ≡ ok bs
    → (b : Bytes) × (cs : List Bytes) × (as_bytes v ≡ ok b)
      × (item_bytes vs ≡ ok cs)
      × (bs ≡ b ∷ cs)
unfolding item_bytes
item_bytes-cons v vs h = ground arith

-- The items that can be encoded are yielded in order, and then the rest.
pub emit_items-append :
    (vs ws : Items) (ending : Ending) {bs : List Bytes}
    → item_bytes vs ≡ ok bs
    → emit_items (append_items vs ws) ending ≡ record {
      outputs = bs ++ (emit_items ws ending).outputs;
      ending = (emit_items ws ending).ending;
    }
unfolding emit_items
emit_items-append none_left ws ending h = unfold item_bytes in ground arith
emit_items-append (item v vs) ws ending h =
    let (b, cs, here, later, e) = item_bytes-cons v vs h in
    ground (arith, here, e, emit_items-append vs ws ending later)

append-none_left : (vs : Items) → append_items vs none_left ≡ vs
append-none_left none_left = refl
append-none_left (item v vs) = ap (item v) (append-none_left vs)

-- A sequence of items that can all be encoded is yielded item by item, in order, and ends as the
-- sequence itself does.
pub emit_items_whole :
    (vs : Items) (ending : Ending) {bs : List Bytes}
    → item_bytes vs ≡ ok bs
    → emit_items vs ending ≡ record { outputs = bs; ending = ending }
unfolding emit_items
emit_items_whole vs ending {bs} h =
    ground (arith, append-none_left vs, append-nil bs, emit_items-append vs none_left ending h)

-- At the first item that cannot be encoded the output ends with that item's error, behind the
-- outputs of the items in front of it, whatever stands behind it.
pub emit_items_cut :
    (vs ws : Items) (v : Value) (ending : Ending) {bs : List Bytes} {e : Text}
    → item_bytes vs ≡ ok bs
    → as_bytes v ≡ err e
    → emit_items (append_items vs (item v ws)) ending ≡ record { outputs = bs; ending = failed e }
unfolding emit_items
emit_items_cut vs ws v ending {bs} h bad =
    ground (arith, append-nil bs, bad, emit_items-append vs (item v ws) ending h)

emit_items-byte_items :
    (bs : Bytes)
    → emit_items (byte_items bs) finished
      ≡ record { outputs = map (λ b. encode (decimal b)) bs; ending = finished }
unfolding emit_items byte_items as_bytes stringify
emit_items-byte_items [] = refl
emit_items-byte_items (b ∷ bs) = rw (emit_items-byte_items bs)

-- A `Uint8Array` is not sent as it is: each of its bytes becomes an output of its own, which is the
-- decimal text of the byte.
pub emit-bytes :
    (v : View)
    → emit (bytes v)
      ≡ record { outputs = map (λ b. encode (decimal b)) (view_bytes v); ending = finished }
unfolding emit
emit-bytes v = emit_items-byte_items (view_bytes v)

-- An `ArrayBuffer` with the same content is sent whole.
emit-buffer : (b : Bytes) → emit (buffer b) ≡ record { outputs = b ∷ []; ending = finished }
unfolding emit
emit-buffer b = refl
