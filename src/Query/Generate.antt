-- ===== src/Query/Generate.antt =====
-- The AQL text of src/arangoquery.cpp against entries joined by a separator.
use arango_cpp.Base.{
  Bool, true, false, List, [], ◌∷◌, ◌++◌, map, append_assoc, ◌≡◌, refl, ap, ◌∙◌, Text, All, lit,
  is_empty, if◌then◌else◌,
}
use arango_cpp.Base.Maps.{Map}
use arango_cpp.Query.{
  separator, return_fields, generate_return, template_fields, filter_fields, generate_filter,
}

-- The entries with `sep` between them.
pub join : Text → List Text → Text
join sep [] = []
join sep (e ∷ []) = e
join sep (e ∷ f ∷ es) = e ++ (sep ++ join sep (f ∷ es))

-- The loops of both functions, over the entries that they write.
unfoldable pub accumulate : Text → List Text → Text → Text
accumulate sep [] acc = acc
accumulate sep (e ∷ es) acc = accumulate sep es ((acc ++ separator sep acc) ++ e)

abbrev pub IsFilled : Text → Type 0
IsFilled e = is_empty e ≡ false

IsFilled-append : (s t : Text) → IsFilled t → IsFilled (s ++ t)
IsFilled-append [] t h = h
IsFilled-append (c ∷ s) t h = refl

-- Behind entries that are there already each entry has a separator before it.
accumulate-filled :
    (sep : Text) (e : Text) (es : List Text) (acc : Text)
    → IsFilled acc
    → All IsFilled (e ∷ es)
    → accumulate sep (e ∷ es) acc ≡ acc ++ (sep ++ join sep (e ∷ es))
unfolding accumulate separator join
accumulate-filled sep e [] acc h (he, hs) = rw h (append_assoc acc sep e)
accumulate-filled sep e (f ∷ es) acc h (he, hs) = rw h (
    accumulate-filled sep f es ((acc ++ sep) ++ e) (IsFilled-append (acc ++ sep) e he) hs
    ∙ simp append_assoc)

pub accumulate-join :
    (sep : Text) (es : List Text) → All IsFilled es → accumulate sep es [] ≡ join sep es
unfolding accumulate join separator
accumulate-join sep [] h = refl
accumulate-join sep (e ∷ []) h = refl
accumulate-join sep (e ∷ f ∷ es) (he, hs) = accumulate-filled sep f es e he hs

-- One field of a RETURN object: `"name" : u.path`.
abbrev pub return_entry : Text → Text × Text → Text
return_entry collvalue (path, name) =
    lit " \"" ++ (name ++ (lit "\" : " ++ (collvalue ++ (lit "." ++ path))))

-- One field of a template, and one condition of a FILTER.
abbrev pub template_entry : Text × Text → Text
template_entry (path, value) = lit " \"" ++ (path ++ (lit "\" : " ++ (value ++ lit " ")))

abbrev pub filter_entry : Text → Text × Text → Text
filter_entry collvalue (path, value) = collvalue ++ (lit "." ++ (path ++ (lit " == " ++ value)))

lit-IsFilled : (s : Text) → IsFilled (lit " \"" ++ s) × IsFilled (lit "." ++ s)
unfolding lit
lit-IsFilled s = (refl, refl)

return_fields-accumulate :
    (collvalue : Text) (fields : Map Text) (acc : Text)
    → return_fields collvalue fields acc
      ≡ accumulate (lit ", ") (map (return_entry collvalue) fields) acc
unfolding return_fields accumulate
return_fields-accumulate collvalue [] acc = refl
return_fields-accumulate collvalue (f ∷ fields) acc = return_fields-accumulate collvalue fields _

template_fields-accumulate :
    (fields : Map Text) (acc : Text)
    → template_fields fields acc ≡ accumulate (lit ", ") (map template_entry fields) acc
unfolding template_fields accumulate
template_fields-accumulate [] acc = refl
template_fields-accumulate (f ∷ fields) acc = template_fields-accumulate fields _

filter_fields-accumulate :
    (collvalue : Text) (fields : Map Text) (acc : Text)
    → filter_fields collvalue fields acc
      ≡ accumulate (lit " && ") (map (filter_entry collvalue) fields) acc
unfolding filter_fields accumulate
filter_fields-accumulate collvalue [] acc = refl
filter_fields-accumulate collvalue (f ∷ fields) acc = filter_fields-accumulate collvalue fields _

return_entries-IsFilled :
    (collvalue : Text) (fields : Map Text) → All IsFilled (map (return_entry collvalue) fields)
return_entries-IsFilled collvalue [] = tt
return_entries-IsFilled collvalue (f ∷ fields) =
    ((lit-IsFilled _).0, return_entries-IsFilled collvalue fields)

template_entries-IsFilled : (fields : Map Text) → All IsFilled (map template_entry fields)
template_entries-IsFilled [] = tt
template_entries-IsFilled (f ∷ fields) = ((lit-IsFilled _).0, template_entries-IsFilled fields)

filter_entries-IsFilled :
    (collvalue : Text) (fields : Map Text) → All IsFilled (map (filter_entry collvalue) fields)
filter_entries-IsFilled collvalue [] = tt
filter_entries-IsFilled collvalue (f ∷ fields) =
    (IsFilled-append collvalue _ (lit-IsFilled _).1, filter_entries-IsFilled collvalue fields)

-- A RETURN clause: a newline, the word and `DISTINCT` if it is asked for; then the variable and a
-- blank if no fields are given, and else an object with an entry for each field, in the order of
-- the map, with a comma and a blank between two entries and none elsewhere.
pub generate_return_lem :
    (is_distinct : Bool) (fields : Map Text) (collvalue : Text)
    → generate_return is_distinct fields collvalue
      ≡ (lit "\nRETURN " ++ (if is_distinct then lit "DISTINCT " else []))
        ++ (if is_empty fields
            then collvalue ++ lit " "
            else lit " { " ++ (join (lit ", ") (map (return_entry collvalue) fields) ++ lit " } "))
unfolding generate_return
generate_return_lem is_distinct [] collvalue = refl
generate_return_lem is_distinct (f ∷ fields) collvalue =
    rw
      (
        return_fields-accumulate collvalue (f ∷ fields) [],
        accumulate-join (lit ", ") _ (return_entries-IsFilled collvalue (f ∷ fields)),
      )
      (append_assoc _ (lit " { ") _)

-- A FILTER clause, or the body of a template: empty without fields; else the entries in the order
-- of the map, a template's with commas between them, a filter's joined by `&&` behind the word.
pub generate_filter_lem :
    (fields : Map Text) (as_template : Bool) (collvalue : Text)
    → generate_filter fields as_template collvalue ≡ (
        if is_empty fields
        then []
        else if as_template
        then join (lit ", ") (map template_entry fields)
        else lit "\nFILTER "
          ++ (join (lit " && ") (map (filter_entry collvalue) fields) ++ lit " "))
unfolding generate_filter
generate_filter_lem [] as_template collvalue = refl
generate_filter_lem (f ∷ fields) true collvalue =
    template_fields-accumulate (f ∷ fields) []
    ∙ accumulate-join (lit ", ") _ (template_entries-IsFilled (f ∷ fields))
generate_filter_lem (f ∷ fields) false collvalue =
    ap (λ t. lit "\nFILTER " ++ (t ++ lit " "))
      (filter_fields-accumulate collvalue (f ∷ fields) []
        ∙ accumulate-join (lit " && ") _ (filter_entries-IsFilled collvalue (f ∷ fields)))
