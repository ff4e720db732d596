-- ===== src/Die/Direct/Samples.antt =====
-- Three neighbours read in pages of two (backend/die/analysis_query.go, `direct`). The codec
-- is a stand-in: each field behind its length.
use mathlib.Core.List.{append-nil}
use software_engineering_pla.Shared.{
  ℕ, zero, suc, ◌+◌, ◌≤◌, ◌≡◌, refl, ap, ◌∙◌, map, List, [], ◌∷◌, ◌++◌, Option, none, some, arith,
  length, drop,
}
use software_engineering_pla.Die.Text.{Text, text, valid_digest}
use software_engineering_pla.Die.Model.{ok, DependencyEdge}
use software_engineering_pla.Die.Limits.{dependencies, analysis_node_id}
use software_engineering_pla.Die.Graph.{GraphIndex}
use software_engineering_pla.Die.Direct.{
  Field, text_field, number_field, Codec, PageKey, page_cursor, Neighbor, start_of, page_from,
}
use software_engineering_pla.Die.Direct.Resume.{IsCodec, IsShort, page_resumes}

-- each field behind its length
abbrev raw_field : Field → Text
raw_field (text_field t) = t
raw_field (number_field n) = n ∷ []

abbrev frame_fields : List Field → Text
frame_fields [] = []
frame_fields (f ∷ fields) = length (raw_field f) ∷ raw_field f ++ frame_fields fields

-- what is left of a field, and the fields behind it
abbrev unframe : ℕ → Text → Text × List Text
unframe n [] = ([], [])
unframe zero (n ∷ t) = let (f, fields) = unframe n t in ([], f ∷ fields)
unframe (suc n) (c ∷ t) = let (f, fields) = unframe n t in (c ∷ f, fields)

abbrev strip : Text → Option Text
strip [] = none
strip (c ∷ t) = some t

abbrev framing : Codec
framing = record {
  marshal = frame_fields;
  unmarshal_list = λ t. some (unframe 0 t).1;
  unmarshal_text = λ t. some t;
  encode = λ t. 1 ∷ t;
  decode = strip;
}

unframe-append :
    (r t : Text) → unframe (length r) (r ++ t) ≡ (r ++ (unframe 0 t).0, (unframe 0 t).1)
unframe-append [] t = refl
unframe-append (c ∷ r) t = ap (λ p. (c ∷ p.0, p.1)) (unframe-append r t)

unframe-frame_fields :
    (fields : List Field) → unframe 0 (frame_fields fields) ≡ ([], map raw_field fields)
unframe-frame_fields [] = refl
unframe-frame_fields (f ∷ fields) =
    ap (λ p. ([], p.0 ∷ p.1))
      (unframe-append (raw_field f) (frame_fields fields)
        ∙ ap (λ p. (raw_field f ++ p.0, p.1)) (unframe-frame_fields fields))
    ∙ ap (λ r. ([], r ∷ map raw_field fields)) (append-nil (raw_field f))

framing-IsCodec : IsCodec framing
framing-IsCodec = record {
  raw = raw_field;
  decodes = λ b. refl;
  lists = λ fields. ap (λ p. some p.1) (unframe-frame_fields fields);
  texts = λ id h. refl;
  not_empty = λ fields. refl;
}

abbrev key : PageKey
key = record {
  digest = text "d";
  graph = text "file";
  direction = dependencies;
  root = text "r";
  size = 2;
}

length-drop : (n : ℕ) (t : Text) → length t ≤ n + length (drop n t)
length-drop zero t = omega arith
length-drop (suc n) [] = omega arith
length-drop (suc n) (c ∷ t) = omega (arith, length-drop n t)

framing-IsShort : IsShort framing key
unfolding page_cursor analysis_node_id valid_digest
framing-IsShort id h =
    let size : length (drop 29 id) ≡ 64 = ground arith in
    let same : length (id ++ []) ≡ length id = ap length (append-nil id) in
    omega (arith, length-drop 29 id)

abbrev neighbor : ℕ → Neighbor
neighbor c = record {
  node_id =
      text
        "dependency-node-id/v1:sha256:000000000000000000000000000000000000000000000000000000000000000"
      ++ c ∷ [];
  resolution = text "resolved_local";
  edge_ids = [];
}

abbrev neighbors : List Neighbor
neighbors = neighbor b'1' ∷ neighbor b'2' ∷ neighbor b'3' ∷ []

page_resumes_example :
    (start_of framing key (page_cursor framing key (neighbor b'2').node_id) neighbors ≡ ok 2)
    × ((neighbor b'1' ∷ neighbor b'2' ∷ []) ++ drop 2 neighbors ≡ drop 0 neighbors)
unfolding page_from analysis_node_id valid_digest
page_resumes_example =
    page_resumes framing key 2 0 neighbors framing-IsCodec framing-IsShort
      ((refl, (refl, tt)), ((refl, tt), (tt, tt))) (refl, (refl, (refl, tt))) (omega arith) refl

abbrev edge : Text → Text → DependencyEdge
edge id target = record {
  id = id;
  graph = text "file";
  kind = text "imports";
  from_node_id = text "a";
  to_node_id = target;
  resolution = text "external";
  occurrences = 1;
  evidence = [];
  omitted_evidence = 0;
}

-- two edges to one node and one to another
abbrev three_edges : GraphIndex
three_edges = record {
  nodes = [];
  edges = edge (text "1") (text "c") ∷ edge (text "2") (text "b") ∷ edge (text "3") (text "c") ∷ [];
}
