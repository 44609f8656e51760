-- ===== src/Parse/Repeats.antt =====
-- The lists of a configuration file (pkg/monny/parse.go, parseFromFile).
use Prim.Native.String.{String}
use monny.Base.{
  ℕ, zero, suc, ◌≡◌, refl, ap, ap₂, ◌∙◌, true, List, [], ◌∷◌, ◌++◌, map, length, some, ok, ◌>>=◌,
  arith,
}
use monny.Config.Options.{ConfigOption, creates, rule}
use monny.Config.Accepted.{all_creates}
use monny.Parse.{
  YamlValue, other_value, ListFields, Readers, handle_option, handle_all, list_options, all_lists,
  has_lists, entry_options, entries_options, parse_from_file, split_rule,
}
use monny.Parse.Files.{parse_from_file-decoded}

-- entries that all hold a list
abbrev pub listed : List String → List (String × YamlValue)
listed [] = []
listed (key ∷ keys) = (key, other_value) ∷ listed keys

unfoldable pub repeated {ℓ} : {A : Type ℓ} → ℕ → List A → List A
repeated zero xs = []
repeated (suc n) xs = xs ++ repeated n xs

handle_all-creates : (files : List String) → handle_all "creates" files ≡ ok (map creates files)
unfolding handle_all handle_option split_rule
handle_all-creates [] = refl
handle_all-creates (f ∷ files) = rw (handle_all-creates files)

handle_all-rule : (texts : List String) → handle_all "rule" texts ≡ ok (map rule texts)
unfolding handle_all handle_option split_rule
handle_all-rule [] = refl
handle_all-rule (t ∷ texts) = rw (handle_all-rule texts)

-- the options of the lists, without rules for JSON
abbrev once : ListFields → List ConfigOption
once alt = map rule alt.rules ++ map creates alt.creates

all_lists-once : (alt : ListFields) → alt.json_rules ≡ [] → all_lists alt ≡ ok (once alt)
unfolding handle_all
all_lists-once alt none_json =
    ap₂
      (λ r cs. r >>= λ rs.
        handle_all "rule-json" alt.json_rules >>= λ js. cs >>= λ fs. ok (rs ++ (js ++ fs)))
      (handle_all-rule alt.rules) (handle_all-creates alt.creates)
    ∙ ap
        (λ texts. handle_all "rule-json" texts >>= λ js.
          ok (map rule alt.rules ++ (js ++ map creates alt.creates)))
        none_json

entries_options-listed :
    (alt : ListFields) (keys : List String)
    → has_lists alt ≡ true
    → alt.json_rules ≡ []
    → entries_options (some alt) (listed keys) ≡ ok (repeated (length keys) (once alt))
unfolding entries_options repeated entry_options list_options
entries_options-listed alt [] h none_json = refl
entries_options-listed alt (key ∷ keys) h none_json =
    ground (arith, entries_options-listed alt keys h none_json, all_lists-once alt none_json)

all_creates-append :
    (xs ys : List ConfigOption) → all_creates (xs ++ ys) ≡ all_creates xs ++ all_creates ys
unfolding all_creates
all_creates-append [] ys = refl
all_creates-append (creates f ∷ xs) ys = ap (λ fs. f ∷ fs) (all_creates-append xs ys)
all_creates-append (x ∷ xs) ys = ground (arith, all_creates-append xs ys)

all_creates-rule :
    (texts : List String) (opts : List ConfigOption)
    → all_creates (map rule texts ++ opts) ≡ all_creates opts
unfolding all_creates
all_creates-rule [] opts = refl
all_creates-rule (t ∷ texts) opts = all_creates-rule texts opts

all_creates-creates : (files : List String) → all_creates (map creates files) ≡ files
unfolding all_creates
all_creates-creates [] = refl
all_creates-creates (f ∷ files) = ap (λ fs. f ∷ fs) (all_creates-creates files)

all_creates-repeated :
    (n : ℕ) (alt : ListFields) → all_creates (repeated n (once alt)) ≡ repeated n alt.creates
unfolding repeated all_creates
all_creates-repeated zero alt = refl
all_creates-repeated (suc n) alt =
    all_creates-append (once alt) (repeated n (once alt))
    ∙ ap₂ (λ xs ys. xs ++ ys)
        (all_creates-rule alt.rules (map creates alt.creates) ∙ all_creates-creates alt.creates)
        (all_creates-repeated n alt)

-- Where a file has nothing but lists, of rules and of files to create, `parseFromFile` goes
-- through all lists once for each key: with two keys every file and every rule is an option twice.
pub parse_from_file-repeated :
    (r : Readers) (path : String) (keys : List String) (alt : ListFields) {content : String}
    → r.read_file path ≡ some content
    → r.decode_map content ≡ some (listed keys)
    → r.decode_lists content ≡ some alt
    → has_lists alt ≡ true
    → alt.json_rules ≡ []
    → (opts : List ConfigOption) × (parse_from_file r path ≡ ok opts)
      × (opts ≡ repeated (length keys) (map rule alt.rules ++ map creates alt.creates))
      × (all_creates opts ≡ repeated (length keys) alt.creates)
parse_from_file-repeated r path keys alt {content} found decoded lists h none_json = (
  repeated (length keys) (once alt),
  parse_from_file-decoded r path found decoded
      ∙ (ap (λ l. entries_options l (listed keys)) lists
          ∙ entries_options-listed alt keys h none_json),
  refl,
  all_creates-repeated (length keys) alt,
)
