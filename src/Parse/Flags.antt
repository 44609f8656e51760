-- ===== src/Parse/Flags.antt =====
-- Which names are options (pkg/monny/parse.go, createFlagSet and handleOption).
use Prim.Native.String.{String}
use mathlib.Core.Path.{subst}
use monny.Base.{
  ◌≡◌, refl, sym, Bool, true, false, ◌||◌, not, List, [], ◌∷◌, map, Option, none, some, Result, ok,
  err, str_eq, arith, eq_iff, inl, inr, Bool-cases,
}
use monny.Parse.{
  ParseError, unknown_option, handle_option, pick, option_cases, flag_names, json_rule_of,
  split_rule,
}

unfoldable pub defines : List String → String → Bool
defines [] name = false
defines (key ∷ keys) name = str_eq name key || defines keys name

abbrev pub is_unknown {ℓ} : {A : Type ℓ} → Result ParseError A → Bool
is_unknown (err (unknown_option name)) = true
is_unknown (err _) = false
is_unknown (ok a) = false

abbrev name_of {ℓ} : {A : Type ℓ} → String × A → String
name_of (name, a) = name

json_rule_of-known :
    (value : String) (parts : Option (String × String))
    → is_unknown (json_rule_of value parts) ≡ false
json_rule_of-known value none = refl
json_rule_of-known value (some (field, regex)) = refl

abbrev AllKnown {ℓ} : {A : Type ℓ} → List (String × Result ParseError A) → Type 0
AllKnown [] = Unit
AllKnown ((key, r) ∷ cases) = (is_unknown r ≡ false) × AllKnown cases

pick-unknown {ℓ} :
    {A : Type ℓ} (name : String) (cases : List (String × Result ParseError A))
    → AllKnown cases
    → is_unknown (pick name cases (err (unknown_option name)))
      ≡ not (defines (map name_of cases) name)
unfolding defines
pick-unknown name [] known = refl
pick-unknown name ((key, r) ∷ cases) known = ground (arith, pick-unknown name cases known.1)

abbrev option_names : List String
option_names =
    "id" ∷ "rule" ∷ "rule-json" ∷ "stdout-history" ∷ "stderr-history" ∷ "no-notify-on-success"
    ∷ "no-notify-on-failure" ∷ "daemon" ∷ "memory-warn" ∷ "memory-kill" ∷ "timeout-warn"
    ∷ "timeout-kill" ∷ "creates" ∷ "host" ∷ "insecure" ∷ "no-error-reports" ∷ "shell" ∷ []

all_known : (value : String) → AllKnown (option_cases value)
unfolding split_rule
all_known value = (
  refl,
  (
    refl,
    (
      json_rule_of-known value (split_rule value),
      (
        refl,
        (
          refl,
          (
            refl,
            (
              refl,
              (refl, (refl, (refl, (refl, (refl, (refl, (refl, (refl, (refl, (refl, tt)))))))))),
            ),
          ),
        ),
      ),
    ),
  ),
)

-- the flag of the configuration file is the second
other_flag :
    (name : String)
    → str_eq name "config" ≡ false
    → defines flag_names name ≡ defines option_names name
unfolding defines
other_flag name e = ground arith

combine :
    {unknown other any config : Bool}
    → unknown ≡ not other
    → any ≡ other
    → config ≡ false
    → unknown ≡ (not any || config)
combine p q e = ground arith

-- `handleOption` calls a name unknown exactly if the command line defines no flag of that name,
-- or the name is that of the configuration file, which is no option.
pub handle_option-unknown :
    (name value : String)
    → is_unknown (handle_option name value)
      ≡ (not (defines flag_names name) || str_eq name "config")
unfolding handle_option defines
handle_option-unknown name value = elim (Bool-cases (str_eq name "config")) [
  | inl e ↦
      subst
        (λ n.
          is_unknown (handle_option n value) ≡ (not (defines flag_names n) || str_eq n "config"))
        (sym ((eq_iff name "config").0 e)) refl
  | inr e ↦ combine (pick-unknown name (option_cases value) (all_known value)) (other_flag name e) e
]
