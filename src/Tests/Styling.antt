-- ===== src/Tests/Styling.antt =====
-- A small hugo_stats.json.
use litefunctions.Prelude.{◌≡◌, refl, List, [], ◌∷◌, ◌++◌, none, some, map}
use litefunctions.Prelude.Exec.{Result, ok, err}
use litefunctions.Text.{Text, codes, text_eq}
use litefunctions.Value.{Json, null, num, str, arr, obj, nil, cons, Members, end, member}
use litefunctions.Docs.{items, text, property, extractor, options}
use litefunctions.Docs.Extracts.{names_array, entry, extractor-names}

styling : Unit {0}
unfolding extractor names_array text_eq options
styling = tt

abbrev tags : List Text
tags = codes "a" ∷ codes "div" ∷ []

abbrev classes : List Text
classes = codes "show" ∷ codes "div" ∷ []

-- The lists stand in another order than that of the extractor.
abbrev lists : Members
lists =
    member (codes "classes") (arr (names_array classes))
      (member (codes "ids") (arr nil) (member (codes "tags") (arr (names_array tags)) end))

abbrev stats : Json
stats = obj (member (codes "htmlElements") (obj lists) end)

abbrev parsed : Json → Text → Result Json
parsed j content = ok j

found_tags : property (codes "tags") (some (obj lists)) ≡ ok (some (arr (names_array tags)))
unfolding styling
found_tags = refl

found_classes :
    property (codes "classes") (some (obj lists)) ≡ ok (some (arr (names_array classes)))
unfolding styling
found_classes = refl

found_ids : property (codes "ids") (some (obj lists)) ≡ ok (some (arr (names_array [])))
unfolding styling
found_ids = refl

found_elements : property (codes "htmlElements") (some stats) ≡ ok (some (obj lists))
unfolding styling
found_elements = refl

extractor-names_example :
    extractor (parsed stats) (codes "{}") ≡ ok (items (map entry (tags ++ (classes ++ []))))
extractor-names_example =
    extractor-names (parsed stats) (codes "{}") stats (some (obj lists)) tags classes [] refl
      found_elements found_tags found_classes found_ids

-- A list of classes that is null adds null, and one that is missing adds undefined.
odd_lists :
    extractor
      (parsed (
        obj (
          member
            (codes "htmlElements")
            (obj (member (codes "classes") null (member (codes "tags") (arr nil) end)))
            end)))
      []
    ≡ ok (items (some null ∷ none ∷ []))
unfolding styling
odd_lists = refl

-- A tag that is no array is joined to a string, or has no `concat`.
no_array :
    extractor
      (parsed (
        obj
          (member (codes "htmlElements") (obj (member (codes "tags") (num (codes "1")) end)) end)))
      []
    ≡ err (codes "TypeError: els.tags.concat is not a function")
unfolding styling
no_array = refl

a_string :
    extractor
      (parsed (
        obj (
          member
            (codes "htmlElements")
            (obj (
              member
                (codes "tags")
                (str (codes "a"))
                (member (codes "ids") (arr (cons null (cons (str (codes "b")) nil))) end)))
            end)))
      []
    ≡ ok (text (codes "aundefined,b"))
unfolding styling
a_string = refl

no_elements :
    extractor (parsed (obj end)) []
    ≡ err (codes "TypeError: Cannot read properties of undefined (reading 'tags')")
unfolding styling
no_elements = refl
