-- ===== src/Metric/Name.antt =====
-- pkg/metric/name.go: names of metrics. The metadata of a name is a reference to a map, which
-- copies of the name share; it may be nil. The encoder of logfmt and `sort.Strings` are
-- parameters.
pub mod Copies
use Prim.Native.String.{◌++◌ as ◌<>◌}
use monny.Base.{
  ℕ, suc, ◌==◌, String, Bool, List, [], ◌∷◌, ◌++◌, Option, none, some, Outcome, returned, panic,
  str_eq, if◌then◌else◌,
}

-- a map, with each key once
abbrev pub Metadata : Type 0
Metadata = List (String × String)

pub record Store : Type 0 where
  pub maps : ℕ → Metadata
  pub next : ℕ

pub record Name : Type 0 where
  pub name : String
  pub md : Option ℕ

-- `m[k] = v`
unfoldable pub set_key : String → String → Metadata → Metadata
set_key k v [] = (k, v) ∷ []
set_key k v ((k', v') ∷ m) =
    let rest = set_key k v m in if str_eq k k' then (k, v) ∷ m else (k', v') ∷ rest

unfoldable pub set_map : ℕ → Metadata → Store → Store
set_map a m st = record st { maps = λ b. if b == a then m else st.maps b }

-- the loop of AddAnnotation
unfoldable pub annotate : List String → Metadata → Metadata
unfolding set_key
annotate [] m = m
annotate (a ∷ anns) m = annotate anns (set_key a "" m)

-- the loop of AddMetadata over the entries of a map
unfoldable pub merge : Metadata → Metadata → Metadata
unfolding set_key
merge [] m = m
merge ((k, v) ∷ entries) m = merge entries (set_key k v m)

-- `n.AddAnnotation(ann...)`: a write to a nil map panics
unfoldable pub add_annotation : List String → Name → Store → Outcome Store
unfolding annotate set_map
add_annotation anns n st = elim n.md [
  | some a ↦ returned (set_map a (annotate anns (st.maps a)) st)
  | none ↦ elim anns [ [] ↦ returned st | x ∷ xs ↦ panic ]
]

-- `n.AddMetadata(md)`
unfoldable pub add_metadata : Metadata → Name → Store → Outcome Store
unfolding merge set_map
add_metadata entries n st = elim n.md [
  | some a ↦ returned (set_map a (merge entries (st.maps a)) st)
  | none ↦ elim entries [ [] ↦ returned st | x ∷ xs ↦ panic ]
]

abbrev pub contents : Option ℕ → Store → Metadata
contents none st = []
contents (some a) st = st.maps a

-- `NewNameFrom(n)`: the copy has a map, also where the name has none
unfoldable pub new_name_from : Name → Store → Name × Store
unfolding set_map
new_name_from n st = (
  record { name = n.name; md = some st.next },
  set_map st.next (contents n.md st) (record st { next = suc st.next }),
)

unfoldable pub keys_of : Metadata → List (String × String)
keys_of [] = []
keys_of ((k, v) ∷ m) = let rest = keys_of m in if str_eq v "" then rest else (k, v) ∷ rest

unfoldable pub annotations_of : Metadata → List String
annotations_of [] = []
annotations_of ((k, v) ∷ m) =
    let rest = annotations_of m in if str_eq v "" then ("@" <> k) ∷ rest else rest

-- `sort_keys` and `sort_strings` are the two calls of `sort.Strings`, `encode` the encoder of
-- logfmt on all pairs, with none for its error, and `join` is `strings.Join` with a blank.
pub record Encoding : Type 0 where
  pub sort_keys : List (String × String) → List (String × String)
  pub sort_strings : List String → List String
  pub encode : List (String × String) → Option String
  pub join : List String → String

abbrev between : List (String × String) → List String → String
between [] anns = ""
between (k ∷ keys) [] = ""
between (k ∷ keys) (a ∷ anns) = " "

abbrev bracketed : Encoding → List (String × String) → List String → Option String → Option String
bracketed c keys anns none = none
bracketed c keys anns (some text) =
    some ("[" <> (text <> (between keys anns <> (c.join anns <> "]"))))

-- `MarshalText(m)` of a nil map and of a map
unfoldable pub marshal_text : Encoding → Option Metadata → Option String
unfolding keys_of annotations_of
marshal_text c none = some ""
marshal_text c (some m) =
    let keys = c.sort_keys (keys_of m) in
    bracketed c keys (c.sort_strings (annotations_of m)) (c.encode keys)

abbrev pub metadata_of : Name → Store → Option Metadata
metadata_of n st = elim n.md [ none ↦ none | some a ↦ some (st.maps a) ]

-- `n.String()`
unfoldable pub text_of : Encoding → Name → Store → String
unfolding marshal_text
text_of c n st =
    n.name
    <> (elim (marshal_text c (metadata_of n st)) as (λ o. String) [ none ↦ "" | some text ↦ text ])
