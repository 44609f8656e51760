-- ===== src/Command/Output.antt =====
-- The processing of a line of output in pkg/monny/command.go: checkRule, extractTextFromJSON,
-- processStdout and processStderr. The packages regexp, encoding/json and fmt are parameters. The
-- two scanners run beside each other; each line is processed as one step.
pub mod History
pub mod Lines
pub mod Numbers
use monny.Base.{
  ℕ, String, Bool, List, [], ◌∷◌, ◌++◌, length, drop, ltb, Option, none, some, Outcome, returned,
  panic, then_call, if◌then◌else◌, str_eq, not,
}
use monny.Base.Int.{ℤ, pos, ltb_ℤ}
use monny.Proto.{ReportReason, alert, alert_rate}
use monny.Config.{Rule}
use monny.Command.Record.{Command, RuleMatch}

-- What the type switch of extractTextFromJSON tells apart in a decoded value. Numbers decode to
-- `float64`.
pub data Scalar {ℓ} (F : Type ℓ) : Type ℓ where
  text : String → Scalar F
  number : F → Scalar F
  boolean : Bool → Scalar F
  other_scalar : Scalar F

pub data Json {ℓ} (F : Type ℓ) : Type ℓ where
  scalar : Scalar F → Json F
  array : List (Scalar F) → Json F

-- The library functions that a line passes through. The two decoders read an object, with the
-- values raw or decoded, and are `none` on an error; `lookup`s in what they return are by key.
pub record Library {ℓ κ} (R : Type ℓ) (F : Type κ) : Type (ℓ ⊔ κ) where
  pub find_all_index : R → String → Option (List (List ℕ))
  pub unmarshal_raw : String → Option (List (String × String))
  pub unmarshal : String → Option (List (String × Json F))
  pub split_dots : String → List String
  pub join_lines : List String → String
  pub format_float : F → String
  pub format_bool : Bool → String

unfoldable pub lookup {ℓ} : {A : Type ℓ} → String → List (String × A) → Option A
lookup k [] = none
lookup k ((k', v) ∷ m) = if str_eq k' k then some v else lookup k m

-- Readings of the clock, numbered down: reading `n` is taken with `n` rules still to come.
abbrev pub Clock : Type 0
Clock = ℕ → ℤ

module _ {ℓ κ} {R : Type ℓ} {F : Type κ} (l : Library R F) where
  -- The texts of the elements of an array; those of another type are left out. For a number the
  -- code asserts that the whole array is a number, and panics.
  unfoldable pub array_texts : List (Scalar F) → Outcome (List String)
  array_texts [] = returned []
  array_texts (text s ∷ vals) = then_call (array_texts vals) (λ out. returned (s ∷ out))
  array_texts (number n ∷ vals) = panic
  array_texts (boolean b ∷ vals) =
      then_call (array_texts vals) (λ out. returned (l.format_bool b ∷ out))
  array_texts (other_scalar ∷ vals) = array_texts vals

  -- the type switch on the value of the field; a missing key reads as nil
  unfoldable pub text_of_value : Option (Json F) → Outcome String
  unfolding array_texts
  text_of_value none = returned ""
  text_of_value (some (scalar (text s))) = returned s
  text_of_value (some (scalar (number n))) = returned (l.format_float n)
  text_of_value (some (scalar (boolean b))) = returned (l.format_bool b)
  text_of_value (some (scalar other_scalar)) = returned ""
  text_of_value (some (array vals)) =
      then_call (array_texts vals) (λ out. returned (l.join_lines out))

  -- extractTextFromJSON on a field that was split at its dots: joining the rest of the path and
  -- splitting it again gives the rest. Splitting never gives an empty list.
  unfoldable pub extract_path : String → List String → Outcome String
  unfolding text_of_value lookup
  extract_path raw [] = returned ""
  extract_path raw (f ∷ []) = elim (l.unmarshal raw) [
    | none ↦ returned ""
    | some res ↦ text_of_value (lookup f res)
  ]
  extract_path raw (f ∷ g ∷ path) = elim (l.unmarshal_raw raw) [
    | none ↦ returned ""
    | some res ↦ elim (lookup f res) [
      | none ↦ extract_path "" (g ∷ path)
      | some inner ↦ extract_path inner (g ∷ path)
    ]
  ]

  unfoldable pub extract_text : String → String → Outcome String
  unfolding extract_path
  extract_text raw field = extract_path raw (l.split_dots field)

  -- the text of a line that a rule looks at
  unfoldable pub text_for : String → Rule R → Outcome String
  unfolding extract_text
  text_for line rule = if str_eq rule.field "" then returned line else extract_text line rule.field

  -- the matches of one rule, with those of the rules behind it; a rule without an expression calls
  -- a method of a nil pointer
  unfoldable pub match_rule :
      ℤ → String → Option R → Outcome (List RuleMatch) → String → Outcome (List RuleMatch)
  match_rule now line none rest t = panic
  match_rule now line (some re) rest t = elim (l.find_all_index re t) [
    | none ↦ rest
    | some found ↦
        then_call rest
          (λ matches. returned ((record { time = now; line = line; index = found }) ∷ matches))
  ]

  -- `checkRule(line, rules)`
  unfoldable pub check_rule : Clock → String → List (Rule R) → Outcome (List RuleMatch)
  unfolding text_for match_rule
  check_rule clock line [] = returned []
  check_rule clock line (rule ∷ rules) =
      let rest = check_rule clock line rules in
      then_call (text_for line rule) (match_rule (clock (length rules)) line rule.regex rest)

-- the second `switch` of `processStdout` and `processStderr`, by the limit of the history
unfoldable pub keep_line : ℤ → String → List String → Outcome (List String)
keep_line limit line kept =
    if ltb_ℤ (pos (length kept)) limit
    then returned (kept ++ (line ∷ []))
    else (if ltb (length kept) 2 then panic else returned (drop 2 kept ++ (line ∷ [])))

module _ {ℓ} {R : Type ℓ} where
  -- the first half of both functions: the matches are recorded, and a send is started if the
  -- command has any, new or old
  unfoldable pub note_matches : List RuleMatch → Command R → Command R × List ReportReason
  note_matches matches c =
      let c' = record c { rule_matches = c.rule_matches ++ matches } in
      elim c'.rule_matches [
        | [] ↦ (c', [])
        | m ∷ ms ↦ (c', (if ltb_ℤ (pos 0) c'.config.rule_quantity then alert_rate else alert) ∷ [])
      ]

module _ {ℓ κ} {R : Type ℓ} {F : Type κ} where
  unfoldable pub process_stdout :
      Library R F → Clock → String → Command R → Outcome (Command R × List ReportReason)
  unfolding check_rule note_matches keep_line
  process_stdout l clock line c = then_call (check_rule l clock line c.config.rules) (λ matches.
      let (c', sends) = note_matches matches c in
      then_call (keep_line c'.config.stdout_history line c'.stdout)
        (λ kept. returned (record c' { stdout = kept }, sends)))

  unfoldable pub process_stderr :
      Library R F → Clock → String → Command R → Outcome (Command R × List ReportReason)
  unfolding check_rule note_matches keep_line
  process_stderr l clock line c = then_call (check_rule l clock line c.config.rules) (λ matches.
      let (c', sends) = note_matches matches c in
      then_call (keep_line c'.config.stderr_history line c'.stderr)
        (λ kept. returned (record c' { stderr = kept }, sends)))
