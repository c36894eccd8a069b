-- ===== src/Docs/Extracts.antt =====
-- What the extractor of docs/config/postcss.config.js finds in hugo_stats.json.
use litefunctions.Prelude.{
  ◌≡◌, refl, sym, ap, ◌∙◌, List, [], ◌∷◌, ◌++◌, Option, none, some, map, map-append,
}
use litefunctions.Prelude.Exec.{Result, ok, err}
use litefunctions.Text.{Text, codes}
use litefunctions.Value.{Json, null, bool, num, str, arr, obj, Jsons, nil, cons}
use litefunctions.Docs.{items, property, elements, concat, then_on, extractor}

-- An array of names, as the site's generator writes it.
unfoldable pub names_array : List Text → Jsons
names_array [] = nil
names_array (name ∷ names) = cons (str name) (names_array names)

abbrev pub entry : Text → Option Json
entry name = some (str name)

elements-names_array : (names : List Text) → elements (names_array names) ≡ map entry names
unfolding elements names_array
elements-names_array [] = refl
elements-names_array (name ∷ names) = ap (◌∷◌ (some (str name))) (elements-names_array names)

-- What came before has given a value, where the whole has given one.
then_on-ok {ℓ κ} :
    {A : Type ℓ} {B : Type κ} (r : Result A) (f : A → Result B) {b : B}
    → then_on r f ≡ ok b
    → (a : A) × (r ≡ ok a) × (f a ≡ ok b)
then_on-ok (ok a) f h = (a, refl, h)
then_on-ok (err x) f h = cc

-- `concat` gives an array only for an array.
concat-items :
    (tags classes ids : Option Json) {found : List (Option Json)}
    → concat tags classes ids ≡ ok (items found)
    → (js : Jsons) × (tags ≡ some (arr js))
unfolding concat
concat-items none classes ids h = absurd (cc h)
concat-items (some null) classes ids h = absurd (cc h)
concat-items (some (bool x)) classes ids h = absurd (cc h)
concat-items (some (num t)) classes ids h = absurd (cc h)
concat-items (some (str t)) classes ids h = absurd (cc h)
concat-items (some (arr js)) classes ids h = (js, refl)
concat-items (some (obj ms)) classes ids h = absurd (cc h)

-- Where the extractor gives an array, the text parsed, and its htmlElements holds an array of tags.
pub extractor-items :
    (parse_json : Text → Result Json) (content : Text) {found : List (Option Json)}
    → extractor parse_json content ≡ ok (items found)
    → (stats : Json) × (els : Option Json) × (js : Jsons) × (parse_json content ≡ ok stats)
      × (property (codes "htmlElements") (some stats) ≡ ok els)
      × (property (codes "tags") els ≡ ok (some (arr js)))
unfolding extractor
extractor-items parse_json content h =
    let (stats, parsed, h1) = then_on-ok (parse_json content) _ h in
    let (els, there, h2) = then_on-ok (property (codes "htmlElements") (some stats)) _ h1 in
    let (tags, tagged, h3) = then_on-ok (property (codes "tags") els) _ h2 in
    let (classes, _, h4) = then_on-ok (property (codes "classes") els) _ h3 in
    let (ids, _, h5) = then_on-ok (property (codes "ids") els) _ h4 in
    let (js, is_array) = concat-items tags classes ids h5 in
    (stats, els, js, parsed, there, tagged ∙ ap ok is_array)

-- Where hugo_stats.json parses, and its htmlElements holds arrays of names under tags, classes and
-- ids, in whatever order and beside whatever else, the extractor gives all of these names and no
-- other: the tags, then the classes, then the ids, each as often and in the order as it is listed.
pub extractor-names :
    (parse_json : Text → Result Json) (content : Text) (stats : Json) (els : Option Json)
    (tags classes ids : List Text)
    → parse_json content ≡ ok stats
    → property (codes "htmlElements") (some stats) ≡ ok els
    → property (codes "tags") els ≡ ok (some (arr (names_array tags)))
    → property (codes "classes") els ≡ ok (some (arr (names_array classes)))
    → property (codes "ids") els ≡ ok (some (arr (names_array ids)))
    → extractor parse_json content ≡ ok (items (map entry (tags ++ (classes ++ ids))))
unfolding extractor concat
extractor-names parse_json content stats els tags classes ids parsed there p q r =
    rw (parsed, there, p, q, r)
      (rw (elements-names_array tags, elements-names_array classes, elements-names_array ids)
        (ap (λ l. ok (items l))
          (ap (◌++◌ (map entry tags)) (sym (map-append entry classes ids))
            ∙ sym (map-append entry tags (classes ++ ids)))))
