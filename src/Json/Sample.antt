-- ===== src/Json/Sample.antt =====
-- A small document type with gjson's operations, at which theorems are applied.
use gpustack_higress_plugin.Common.{Bytes, Bool, true, false, List, [], ◌∷◌, eqb, if◌then◌else◌}
use gpustack_higress_plugin.Json.{Gjson}

mutual
  pub data Doc : Type 0 where
    missing : Doc
    text_of : Bytes → Doc
    array : Docs → Doc
    object : Fields → Doc

  pub data Docs : Type 0 where
    nil : Docs
    cons : Doc → Docs → Docs

  pub data Fields : Type 0 where
    end : Fields
    field : Bytes → Doc → Fields → Fields

abbrev exists : Doc → Bool
exists missing = false
exists d = true

abbrev is_object : Doc → Bool
is_object (object f) = true
is_object d = false

abbrev is_array : Doc → Bool
is_array (array a) = true
is_array d = false

abbrev is_string : Doc → Bool
is_string (text_of s) = true
is_string d = false

abbrev text : Doc → Bytes
text (text_of s) = s
text d = []

abbrev fields : Fields → List (Bytes × Doc)
fields end = []
fields (field k d rest) = (k, d) ∷ fields rest

abbrev entries : Doc → List (Bytes × Doc)
entries (object f) = fields f
entries d = []

abbrev names : List (Bytes × Doc) → List Bytes
names [] = []
names ((k, d) ∷ rest) = k ∷ names rest

abbrev elements : Docs → List Doc
elements nil = []
elements (cons d rest) = d ∷ elements rest

abbrev items : Doc → List Doc
items (array a) = elements a
items d = []

abbrev find : Bytes → List (Bytes × Doc) → Doc
find k [] = missing
find k ((j, d) ∷ rest) = let later = find k rest in if eqb j k then d else later

abbrev pub sample : Gjson Doc
sample = record {
  exists = exists;
  is_object = is_object;
  is_array = is_array;
  is_string = is_string;
  get = λ d k. find k (entries d);
  text = text;
  entries = entries;
  keys = λ d. names (entries d);
  items = items;
}
