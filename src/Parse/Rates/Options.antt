-- ===== src/Parse/Rates/Options.antt =====
-- The options that pkg/monny/parse.go makes leave the rate of rule matches alone.
use Prim.Native.String.{String}
use monny.Base.{
  Bool, List, [], ◌∷◌, ◌++◌, Option, none, some, Result, ok, err, ◌>>=◌, str_eq, if_both,
}
use monny.Base.Strconv.{itoa}
use monny.Config.Options.{ConfigOption, rule_quantity, rule_period}
use monny.Parse.{
  has_lists, all_lists, options_so_far, decoded_options, content_options, split_rule, YamlValue,
  text, number, boolean, other_value, null, ListFields, Readers, ParseError, json_rule_of, pick,
  option_cases, has_lists, handle_option, handle_all, list_options, entry_options, entries_options,
  parse_from_file, flag_options, parse_flags, unknown_option,
}

-- an option that leaves the rate alone
abbrev pub LeavesRate : ConfigOption → Type 0
LeavesRate (rule_quantity q) = ⊥
LeavesRate (rule_period p) = ⊥
LeavesRate _ = Unit

abbrev pub AllLeaveRate : List ConfigOption → Type 0
AllLeaveRate [] = Unit
AllLeaveRate (opt ∷ opts) = LeavesRate opt × AllLeaveRate opts

-- a property of the value of a result, if it has one
abbrev OnOk {ℓ κ} : {E : Type 0} {A : Type ℓ} → (A → Type κ) → Result E A → Type κ
OnOk P (ok a) = P a
OnOk P (err e) = Unit

OnOk-bind {ℓ κ μ ν} :
    {E : Type 0} {A : Type ℓ} {B : Type κ} (P : A → Type μ) (Q : B → Type ν) (r : Result E A)
    (f : A → Result E B)
    → OnOk P r
    → ((a : A) → P a → OnOk Q (f a))
    → OnOk Q (r >>= f)
OnOk-bind P Q (ok a) f p q = q a p
OnOk-bind P Q (err e) f p q = tt

AllLeaveRate-append :
    (xs ys : List ConfigOption) → AllLeaveRate xs → AllLeaveRate ys → AllLeaveRate (xs ++ ys)
AllLeaveRate-append [] ys p q = q
AllLeaveRate-append (x ∷ xs) ys p q = (p.0, AllLeaveRate-append xs ys p.1 q)

abbrev CasesLeaveRate : List (String × Result ParseError ConfigOption) → Type 0
CasesLeaveRate [] = Unit
CasesLeaveRate ((key, r) ∷ cases) = OnOk LeavesRate r × CasesLeaveRate cases

pick-LeavesRate :
    (name : String) (cases : List (String × Result ParseError ConfigOption))
    → CasesLeaveRate cases
    → OnOk LeavesRate (pick name cases (err (unknown_option name)))
pick-LeavesRate name [] h = tt
pick-LeavesRate name ((key, r) ∷ cases) h =
    if_both (OnOk LeavesRate) (str_eq name key) r (pick name cases (err (unknown_option name))) h.0
      (pick-LeavesRate name cases h.1)

json_rule_of-LeavesRate :
    (value : String) (parts : Option (String × String)) → OnOk LeavesRate (json_rule_of value parts)
json_rule_of-LeavesRate value none = tt
json_rule_of-LeavesRate value (some (field, regex)) = tt

handle_option-LeavesRate : (name value : String) → OnOk LeavesRate (handle_option name value)
unfolding handle_option
handle_option-LeavesRate name value = pick-LeavesRate name (option_cases value) (
  tt,
  (
    tt,
    (
      json_rule_of-LeavesRate value (split_rule value),
      (tt, (tt, (tt, (tt, (tt, (tt, (tt, (tt, (tt, (tt, (tt, (tt, (tt, (tt, tt)))))))))))))),
    ),
  ),
)

abbrev OneLeavesRate : Result ParseError (List ConfigOption) → Type 0
OneLeavesRate r = OnOk AllLeaveRate r

alone :
    (r : Result ParseError ConfigOption)
    → OnOk LeavesRate r
    → OneLeavesRate (r >>= λ opt. ok (opt ∷ []))
alone r h = OnOk-bind LeavesRate AllLeaveRate r (λ opt. ok (opt ∷ [])) h (λ opt p. (p, tt))

handle_all-LeavesRate :
    (name : String) (values : List String) → OneLeavesRate (handle_all name values)
unfolding handle_all
handle_all-LeavesRate name [] = tt
handle_all-LeavesRate name (value ∷ values) =
    OnOk-bind LeavesRate AllLeaveRate (handle_option name value)
      (λ opt. handle_all name values >>= λ opts. ok (opt ∷ opts))
      (handle_option-LeavesRate name value)
      (λ opt p.
        OnOk-bind AllLeaveRate AllLeaveRate (handle_all name values) (λ opts. ok (opt ∷ opts))
          (handle_all-LeavesRate name values) (λ opts q. (p, q)))

-- two results, one behind the other
joined :
    (r s : Result ParseError (List ConfigOption))
    → OneLeavesRate r
    → OneLeavesRate s
    → OneLeavesRate (r >>= λ xs. s >>= λ ys. ok (xs ++ ys))
joined (ok xs) (ok ys) p q = AllLeaveRate-append xs ys p q
joined (ok xs) (err e) p q = tt
joined (err e) s p q = tt

joined3 :
    (r s t : Result ParseError (List ConfigOption))
    → OneLeavesRate r
    → OneLeavesRate s
    → OneLeavesRate t
    → OneLeavesRate (r >>= λ xs. s >>= λ ys. t >>= λ zs. ok (xs ++ (ys ++ zs)))
joined3 (ok xs) (ok ys) (ok zs) p q h =
    AllLeaveRate-append xs (ys ++ zs) p (AllLeaveRate-append ys zs q h)
joined3 (ok xs) (ok ys) (err e) p q h = tt
joined3 (ok xs) (err e) t p q h = tt
joined3 (err e) s t p q h = tt

list_options-LeavesRate :
    (key : String) (lists : Option ListFields) → OneLeavesRate (list_options key lists)
unfolding list_options
list_options-LeavesRate key none = tt
list_options-LeavesRate key (some alt) =
    if_both OneLeavesRate (has_lists alt) (all_lists alt) (err (unknown_option key))
      (joined3 (handle_all "rule" alt.rules) (handle_all "rule-json" alt.json_rules)
        (handle_all "creates" alt.creates) (handle_all-LeavesRate "rule" alt.rules)
        (handle_all-LeavesRate "rule-json" alt.json_rules)
        (handle_all-LeavesRate "creates" alt.creates))
      tt

entry_options-LeavesRate :
    (lists : Option ListFields) (key : String) (value : YamlValue)
    → OneLeavesRate (entry_options lists key value)
unfolding entry_options
entry_options-LeavesRate lists key (text value) =
    alone (handle_option key value) (handle_option-LeavesRate key value)
entry_options-LeavesRate lists key (number n) =
    alone (handle_option key (itoa n)) (handle_option-LeavesRate key (itoa n))
entry_options-LeavesRate lists key (boolean b) =
    alone (handle_option key "") (handle_option-LeavesRate key "")
entry_options-LeavesRate lists key other_value = list_options-LeavesRate key lists
entry_options-LeavesRate lists key null = tt

entries_options-LeavesRate :
    (lists : Option ListFields) (entries : List (String × YamlValue))
    → OneLeavesRate (entries_options lists entries)
unfolding entries_options
entries_options-LeavesRate lists [] = tt
entries_options-LeavesRate lists ((key, value) ∷ entries) =
    joined (entry_options lists key value) (entries_options lists entries)
      (entry_options-LeavesRate lists key value) (entries_options-LeavesRate lists entries)

decoded_options-LeavesRate :
    (lists : Option ListFields) (entries : Option (List (String × YamlValue)))
    → OneLeavesRate (decoded_options lists entries)
unfolding entries_options
decoded_options-LeavesRate lists none = tt
decoded_options-LeavesRate lists (some entries) = entries_options-LeavesRate lists entries

content_options-LeavesRate :
    (r : Readers) (content : Option String) → OneLeavesRate (content_options r content)
unfolding entries_options
content_options-LeavesRate r none = tt
content_options-LeavesRate r (some content) =
    decoded_options-LeavesRate (r.decode_lists content) (r.decode_map content)

parse_from_file-LeavesRate : (r : Readers) (path : String) → OneLeavesRate (parse_from_file r path)
unfolding parse_from_file entries_options
parse_from_file-LeavesRate r path = content_options-LeavesRate r (r.read_file path)

flag_options-LeavesRate :
    (r : Readers) (name value : String) → OneLeavesRate (flag_options r name value)
unfolding flag_options
flag_options-LeavesRate r name value =
    if_both OneLeavesRate (str_eq name "config") (parse_from_file r value)
      (handle_option name value >>= λ opt. ok (opt ∷ [])) (parse_from_file-LeavesRate r value)
      (alone (handle_option name value) (handle_option-LeavesRate name value))

options_so_far-AllLeaveRate :
    (r : Result ParseError (List ConfigOption)) (rest : List ConfigOption × Option ParseError)
    → OneLeavesRate r
    → AllLeaveRate rest.0
    → AllLeaveRate (options_so_far r rest).0
options_so_far-AllLeaveRate (err x) (more, e) p q = tt
options_so_far-AllLeaveRate (ok opts) (more, e) p q = AllLeaveRate-append opts more p q

pub parse_flags-AllLeaveRate :
    (r : Readers) (flags : List (String × String)) (refused : Bool)
    → AllLeaveRate (parse_flags r flags refused).0
unfolding parse_flags
parse_flags-AllLeaveRate r [] refused = tt
parse_flags-AllLeaveRate r ((name, value) ∷ flags) refused =
    options_so_far-AllLeaveRate (flag_options r name value) (parse_flags r flags refused)
      (flag_options-LeavesRate r name value) (parse_flags-AllLeaveRate r flags refused)
