-- ===== src/Parser/Annotations.antt =====
-- Annotations in the comments of a source (src/parser/interfaceParser.cpp). The multimap of annotations
-- is the list of its insertions: the range of a key has its values in that order.
use strus_bindings.Base.{
  Bool, true, false, not, ◌&&◌, ◌||◌, List, [], ◌∷◌, ◌++◌, leb, ◌==◌, if◌then◌else◌, Bytes, codes,
  eq_bytes, is_empty,
}
use strus_bindings.Base.Result.{Result, ok, err}
use strus_bindings.Parser.Lexical.{
  ParseError, unknown_annotation_key, annotation_empty, single_annotation_only,
  annotation_mandatory, several_annotations, unrelated_annotation, missing_close_bracket,
  unknown_annotation_tag, is_alpha, span, parse_identifier, skip_while, skip_spaces, skip_to_eoln,
  line,
}

infixl 5 ◌>>=◌
abbrev pub ◌>>=◌ :
    {A B : Type 0} → Result ParseError A → (A → Result ParseError B) → Result ParseError B
ok a >>= f = f a
err e >>= f = err e

abbrev pub AnnotationMap : Type 0
AnnotationMap = List (Bytes × Bytes)

pub record AnnotationMapBuilder : Type 0 where
  pub current_annotation_key : Bytes
  pub current_allow_multiple : Bool
  pub annotations : AnnotationMap

unfoldable pub new_builder : AnnotationMapBuilder
new_builder = record {
  current_annotation_key = [];
  current_allow_multiple = false;
  annotations = [];
}

unfoldable pub values_of : (key : Bytes) → AnnotationMap → List Bytes
values_of key [] = []
values_of key ((k, v) ∷ amap) =
    if eq_bytes k key then v ∷ values_of key amap else values_of key amap

unfoldable pub has_annotation : AnnotationMap → (key : Bytes) → Bool
has_annotation [] key = false
has_annotation ((k, v) ∷ amap) key = eq_bytes k key || has_annotation amap key

-- the value with a line feed goes to the end of the last value of the key
unfoldable pub concat_last : (key value : Bytes) → AnnotationMap → AnnotationMap
unfolding has_annotation
concat_last key value [] = []
concat_last key value ((k, v) ∷ amap) =
    if eq_bytes k key && not (has_annotation amap key)
    then (k, v ++ (10 ∷ value)) ∷ amap
    else (k, v) ∷ concat_last key value amap

unfoldable pub add_to :
    (found concat multiple : Bool)
    → (key value : Bytes) → AnnotationMap
    → Result ParseError AnnotationMap
unfolding concat_last
add_to false concat multiple key value amap = ok (amap ++ ((key, value) ∷ []))
add_to true true multiple key value amap = ok (concat_last key value amap)
add_to true false true key value amap = ok (amap ++ ((key, value) ∷ []))
add_to true false false key value amap = err single_annotation_only

unfoldable pub add_annotation :
    AnnotationMapBuilder
    → (value : Bytes) → (concat : Bool) → Result ParseError AnnotationMapBuilder
unfolding add_to has_annotation
add_annotation b value concat =
    let added = do
      amap ←
          add_to (has_annotation b.annotations b.current_annotation_key) concat
            b.current_allow_multiple b.current_annotation_key value b.annotations
      ok (record b { annotations = amap })
    in if is_empty b.current_annotation_key
      then err unknown_annotation_key
      else if is_empty value
      then err annotation_empty
      else added

-- the loop over the range of a key: spaces at the start of a value are left out
unfoldable pub trimmed_value : Bytes → Result ParseError Bytes
trimmed_value [] = err annotation_empty
trimmed_value (c ∷ cs) = ok (c ∷ cs)

unfoldable pub trimmed_values : List Bytes → Result ParseError (List Bytes)
unfolding skip_spaces trimmed_value
trimmed_values [] = ok []
trimmed_values (v ∷ vs) = do w ← trimmed_value (skip_spaces v); ws ← trimmed_values vs; ok (w ∷ ws)

unfoldable pub of_range : (mandatory : Bool) → List Bytes → Result ParseError (List Bytes)
unfolding trimmed_values
of_range true [] = err annotation_mandatory
of_range false [] = ok []
of_range mandatory (v ∷ vs) = trimmed_values (v ∷ vs)

unfoldable pub get_annotations :
    AnnotationMap → (key : Bytes) → (mandatory : Bool) → Result ParseError (List Bytes)
unfolding of_range values_of
get_annotations amap key mandatory = of_range mandatory (values_of key amap)

unfoldable pub single : List Bytes → Result ParseError Bytes
single [] = ok []
single (v ∷ []) = ok v
single (v ∷ w ∷ vs) = err several_annotations

unfoldable pub get_annotation :
    AnnotationMap → (key : Bytes) → (mandatory : Bool) → Result ParseError Bytes
unfolding get_annotations single
get_annotation amap key mandatory = do vs ← get_annotations amap key mandatory; single vs

abbrev pub DocTagMap : Type 0
DocTagMap = List (Bytes × Bytes)

unfoldable pub insert_doc_tag_map : DocTagMap → (key : Bytes) → List Bytes → DocTagMap
insert_doc_tag_map dmap key [] = dmap
insert_doc_tag_map dmap key (v ∷ vs) = insert_doc_tag_map (dmap ++ ((key, v) ∷ [])) key vs

unfoldable pub get_annotation_doc : AnnotationMap → (context : Bytes) → Result ParseError DocTagMap
unfolding get_annotation get_annotations insert_doc_tag_map
get_annotation_doc amap context = do
  brief ← get_annotation amap (if is_empty context then codes "@brief" else context) true
  examples ← get_annotations amap (context ++ codes "@example") false
  notes ← get_annotations amap (context ++ codes "@note") false
  remarks ← get_annotations amap (context ++ codes "@remark") false
  ok (
      insert_doc_tag_map
        (insert_doc_tag_map
          (insert_doc_tag_map ((codes "brief", brief) ∷ []) (codes "example") examples)
          (codes "note") notes)
        (codes "remark") remarks)

unfoldable pub set_key :
    AnnotationMapBuilder → (key : Bytes) → (multiple : Bool) → AnnotationMapBuilder
set_key b key multiple = record b {
  current_annotation_key = key;
  current_allow_multiple = multiple;
}

-- The key of an example, a remark or a note: what the current key has before its '@', all of it if
-- it has none, with the tag.
unfoldable pub related_key :
    AnnotationMapBuilder → (keyid : Bytes) → Result ParseError AnnotationMapBuilder
unfolding span set_key
related_key b keyid =
    if is_empty b.current_annotation_key
    then err unrelated_annotation
    else ok (set_key b ((span (λ c. not (c == b'@')) b.current_annotation_key).0 ++ keyid) true)

-- the text in brackets after `param`
unfoldable pub close_bracket : Bytes → Result ParseError Bytes
unfolding skip_spaces
close_bracket [] = err missing_close_bracket
close_bracket (c ∷ cs) = if c == b']' then ok (skip_spaces cs) else err missing_close_bracket

unfoldable pub skip_param_kind : Bytes → Result ParseError Bytes
unfolding close_bracket skip_while
skip_param_kind [] = ok []
skip_param_kind (c ∷ cs) =
    let behind = close_bracket (skip_while (λ d. not (d == b']') && leb 32 d) cs) in
    if c == b'[' then behind else ok (c ∷ cs)

unfoldable pub name_key : AnnotationMapBuilder → Bytes → AnnotationMapBuilder × Bytes
unfolding parse_identifier set_key
name_key b src = (set_key b (parse_identifier src).0 false, (parse_identifier src).1)

-- the chain of tests on the tag
unfoldable pub tag_key :
    AnnotationMapBuilder → (key rest : Bytes) → Result ParseError (AnnotationMapBuilder × Bytes)
unfolding set_key related_key skip_param_kind name_key skip_spaces
tag_key b key rest =
    let related = do b1 ← related_key b (b'@' ∷ key); ok (b1, rest)
    in let param = do rest1 ← skip_param_kind (skip_spaces rest); ok (name_key b rest1)
      in if eq_bytes key (codes "brief")
          || eq_bytes key (codes "struct")
          || eq_bytes key (codes "class")
        then ok (set_key b (b'@' ∷ key) false, rest)
        else if eq_bytes key (codes "example")
            || eq_bytes key (codes "remark")
            || eq_bytes key (codes "note")
        then related
        else if eq_bytes key (codes "return")
        then ok (set_key b (codes "return") false, rest)
        else if eq_bytes key (codes "param")
        then param
        else if eq_bytes key (codes "member")
        then ok (name_key b (skip_spaces rest))
        else err unknown_annotation_tag

unfoldable pub value_line :
    AnnotationMapBuilder × Bytes → Result ParseError (AnnotationMapBuilder × Bytes)
unfolding add_annotation skip_spaces skip_to_eoln line
value_line (b, src) = do
  b1 ← add_annotation b (line (skip_spaces src)) false
  ok (b1, skip_to_eoln (skip_spaces src))

unfoldable pub extract_at :
    AnnotationMapBuilder → Bytes → Result ParseError (AnnotationMapBuilder × Bytes)
unfolding add_annotation tag_key value_line span is_alpha skip_to_eoln line set_key
extract_at b [] = ok (b, [])
extract_at b (c ∷ cs) =
    let continued = do b1 ← add_annotation b (line cs) true; ok (b1, skip_to_eoln (c ∷ cs))
    in let tagged = do
      (b1, rest) ← tag_key b (span is_alpha cs).0 (span is_alpha cs).1
      value_line (b1, rest)
      in if c == 9
        then continued
        else if c == b'\\'
        then tagged
        else ok (set_key b [] false, c ∷ cs)

unfoldable pub extract_annotation :
    AnnotationMapBuilder → Bytes → Result ParseError (AnnotationMapBuilder × Bytes)
unfolding extract_at skip_while
extract_annotation b src = extract_at b (skip_while (λ c. c == 32) src)
