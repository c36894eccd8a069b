-- ===== src/Docs.antt =====
-- docs/config/postcss.config.js: which names of elements, classes and ids the documentation site's
-- build finds in hugo_stats.json, and the options that it gives to PurgeCSS.
pub mod Extracts
use litefunctions.Prelude.{
  Bool, true, false, List, [], ◌∷◌, ◌++◌, Option, none, some, if◌then◌else◌,
}
use litefunctions.Prelude.Exec.{Result, ok, err}
use litefunctions.Text.{Text, codes, text_eq}
use litefunctions.Value.{
  Json, null, bool, num, str, arr, obj, Jsons, nil, cons, Members, end, member,
}

-- What the extractor returns: an array, where `none` stands for undefined, or a string.
pub data Extracted : Type 0 where
  items : List (Option Json) → Extracted
  text : Text → Extracted

-- A property of a parsed object; of two members with one name the later counts.
unfoldable pub find_member : Text → Members → Option Json
unfolding text_eq
find_member key end = none
find_member key (member k j ms) =
    let rest = find_member key ms in
    elim rest [ some later ↦ some later | none ↦ if text_eq k key then some j else none ]

abbrev cannot_read : Text → Text → Result (Option Json)
cannot_read of key = err (
    codes "TypeError: Cannot read properties of "
    ++ (of ++ (codes " (reading '" ++ (key ++ codes "')"))))

-- `v.key`, for keys that no prototype has
unfoldable pub property : Text → Option Json → Result (Option Json)
unfolding find_member
property key none = cannot_read (codes "undefined") key
property key (some null) = cannot_read (codes "null") key
property key (some (bool x)) = ok none
property key (some (num t)) = ok none
property key (some (str t)) = ok none
property key (some (arr js)) = ok none
property key (some (obj ms)) = ok (find_member key ms)

unfoldable pub elements : Jsons → List (Option Json)
elements nil = []
elements (cons j js) = some j ∷ elements js

-- `String(v)` of a parsed value; in an array, null counts as an empty string.
unfoldable mutual
  pub to_string : Json → Text
  to_string null = codes "null"
  to_string (bool true) = codes "true"
  to_string (bool false) = codes "false"
  to_string (num t) = t
  to_string (str t) = t
  to_string (arr nil) = []
  to_string (arr (cons j js)) = item_string j ++ rest_string js
  to_string (obj ms) = codes "[object Object]"

  pub item_string : Json → Text
  item_string null = []
  item_string (bool true) = codes "true"
  item_string (bool false) = codes "false"
  item_string (num t) = t
  item_string (str t) = t
  item_string (arr nil) = []
  item_string (arr (cons j js)) = item_string j ++ rest_string js
  item_string (obj ms) = codes "[object Object]"

  pub rest_string : Jsons → Text
  rest_string nil = []
  rest_string (cons j js) = codes "," ++ (item_string j ++ rest_string js)

abbrev string_of : Option Json → Text
string_of none = codes "undefined"
string_of (some j) = to_string j

-- What an argument of `concat` adds to an array.
abbrev pub spread : Option Json → List (Option Json)
spread none = none ∷ []
spread (some null) = some null ∷ []
spread (some (bool x)) = some (bool x) ∷ []
spread (some (num t)) = some (num t) ∷ []
spread (some (str t)) = some (str t) ∷ []
spread (some (arr js)) = elements js
spread (some (obj ms)) = some (obj ms) ∷ []

abbrev not_callable : Result Extracted
not_callable = err (codes "TypeError: els.tags.concat is not a function")

abbrev no_concat : Text → Result Extracted
no_concat of =
    err (codes "TypeError: Cannot read properties of " ++ (of ++ codes " (reading 'concat')"))

-- `tags.concat(classes, ids)`
unfoldable pub concat : Option Json → Option Json → Option Json → Result Extracted
unfolding elements to_string
concat none classes ids = no_concat (codes "undefined")
concat (some null) classes ids = no_concat (codes "null")
concat (some (bool x)) classes ids = not_callable
concat (some (num t)) classes ids = not_callable
concat (some (str t)) classes ids = ok (text (t ++ (string_of classes ++ string_of ids)))
concat (some (arr js)) classes ids = ok (items (elements js ++ (spread classes ++ spread ids)))
concat (some (obj ms)) classes ids = not_callable

-- An error goes past what comes next.
abbrev pub then_on {ℓ κ} : {A : Type ℓ} {B : Type κ} → Result A → (A → Result B) → Result B
then_on (ok a) f = f a
then_on (err x) f = err x

-- `extractor`, where `parse_json` stands for `JSON.parse`
unfoldable pub extractor : (Text → Result Json) → Text → Result Extracted
unfolding property concat
extractor parse_json content = then_on (parse_json content) (λ stats.
    then_on (property (codes "htmlElements") (some stats)) (λ els.
      then_on (property (codes "tags") els) (λ tags.
        then_on (property (codes "classes") els)
          (λ classes. then_on (property (codes "ids") els) (λ ids. concat tags classes ids)))))

-- The options of `purgeCSSPlugin`
pub record Options : Type 0 where
  pub content : List Text
  pub extractor_of : (Text → Result Json) → Text → Result Extracted
  pub extensions : List Text
  pub dynamic_attributes : List Text
  pub safelist : List Text

-- `whitelister` stands for purgecss-whitelister: the names in the files that match the patterns.
unfoldable pub options : (List Text → List Text) → Options
unfolding extractor
options whitelister = record {
  content = codes "./hugo_stats.json" ∷ [];
  extractor_of = extractor;
  extensions = codes "json" ∷ [];
  dynamic_attributes =
      codes "aria-expanded"
      ∷ codes "data-bs-popper"
      ∷ codes "data-bs-target"
      ∷ codes "data-bs-theme"
      ∷ codes "data-dark-mode"
      ∷ codes "data-global-alert"
      ∷ codes "data-pane"
      ∷ codes "data-popper-placement"
      ∷ codes "data-sizes"
      ∷ codes "data-toggle-tab"
      ∷ codes "id"
      ∷ codes "size"
      ∷ codes "type"
      ∷ [];
  safelist =
      codes "active"
      ∷ codes "btn-clipboard"
      ∷ codes "clipboard"
      ∷ codes "disabled"
      ∷ codes "hidden"
      ∷ codes "modal-backdrop"
      ∷ codes "selected"
      ∷ codes "show"
      ∷ codes "img-fluid"
      ∷ codes "blur-up"
      ∷ codes "lazyload"
      ∷ codes "lazyloaded"
      ∷ codes "alert-link"
      ∷ codes "container-fw "
      ∷ codes "container-lg"
      ∷ codes "container-fluid"
      ∷ codes "offcanvas-backdrop"
      ∷ codes "figcaption"
      ∷ codes "dt"
      ∷ codes "dd"
      ∷ codes "showing"
      ∷ codes "hiding"
      ∷ codes "page-item"
      ∷ codes "page-link"
      ∷ codes "not-content"
      ∷ whitelister (
          codes "./assets/scss/**/*.scss"
          ∷ codes "./node_modules/@thulite/doks-core/assets/scss/components/_code.scss"
          ∷ codes "./node_modules/@thulite/doks-core/assets/scss/components/_expressive-code.scss"
          ∷ codes "./node_modules/@thulite/doks-core/assets/scss/common/_syntax.scss"
          ∷ []);
}
