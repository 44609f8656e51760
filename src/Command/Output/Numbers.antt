-- ===== src/Command/Output/Numbers.antt =====
-- A line in which a rule for JSON finds an array with a number (pkg/monny/command.go,
-- extractTextFromJSON).
use monny.Base.{
  ◌≡◌, refl, ap, ◌∙◌, Bool, true, false, List, [], ◌∷◌, ◌++◌, Option, none, some, Outcome, returned,
  panic, then_call, String, str_eq, arith, length,
}
use monny.Base.Int.{ℤ}
use monny.Config.{Rule}
use monny.Command.Record.{Command}
use monny.Command.Output.{
  Scalar, text, number, boolean, other_scalar, Json, array, Library, Clock, lookup, array_texts,
  extract_path, text_for, match_rule, check_rule, process_stdout,
}

abbrev pub has_number {ℓ} : {F : Type ℓ} → List (Scalar F) → Bool
has_number [] = false
has_number (number n ∷ vals) = true
has_number (_ ∷ vals) = has_number vals

module _ {ℓ κ} {R : Type ℓ} {F : Type κ} (l : Library R F) where
  array_texts-panics :
      (vals : List (Scalar F)) → has_number vals ≡ true → array_texts l vals ≡ panic
  unfolding array_texts
  array_texts-panics [] h = absurd (cc)
  array_texts-panics (number n ∷ vals) h = refl
  array_texts-panics (text s ∷ vals) h = ground (arith, array_texts-panics vals h)
  array_texts-panics (boolean b ∷ vals) h = ground (arith, array_texts-panics vals h)
  array_texts-panics (other_scalar ∷ vals) h = array_texts-panics vals h

  -- the path of a field leads to an array with a number; a key that is missing on the way leaves
  -- no text to decode
  pub data Reaches : String → List String → Type κ where
    reads :
        {raw f : String} (res : List (String × Json F)) (vals : List (Scalar F))
        → l.unmarshal raw ≡ some res
        → lookup f res ≡ some (array vals)
        → has_number vals ≡ true
        → Reaches raw (f ∷ [])
    enters :
        {raw f g : String} {path : List String} (res : List (String × String)) (inner : String)
        → l.unmarshal_raw raw ≡ some res
        → lookup f res ≡ some inner
        → Reaches inner (g ∷ path)
        → Reaches raw (f ∷ g ∷ path)
    misses :
        {raw f g : String} {path : List String} (res : List (String × String))
        → l.unmarshal_raw raw ≡ some res
        → lookup f res ≡ none
        → Reaches "" (g ∷ path)
        → Reaches raw (f ∷ g ∷ path)

  -- the rule has a field, nested or not, that leads to an array with a number
  abbrev pub FindsNumber : String → Rule R → Type κ
  FindsNumber line rule = (str_eq rule.field "" ≡ false) × Reaches line (l.split_dots rule.field)

  extract_path-panics :
      {raw : String} {path : List String} → Reaches raw path → extract_path l raw path ≡ panic
  unfolding extract_path
  extract_path-panics (reads res vals decoded here h) = ground (arith, array_texts-panics vals h)
  extract_path-panics (enters res inner decoded here rest) =
      ground (arith, extract_path-panics rest)
  extract_path-panics (misses res decoded here rest) = ground (arith, extract_path-panics rest)

  text_for-panics :
      (line : String) (rule : Rule R) → FindsNumber line rule → text_for l line rule ≡ panic
  unfolding text_for
  text_for-panics line rule (named, there) = ground (arith, extract_path-panics there)

  match_rule-panics :
      (now : ℤ) (line : String) (regex : Option R) (t : String)
      → match_rule l now line regex panic t ≡ panic
  unfolding match_rule
  match_rule-panics now line none t = refl
  match_rule-panics now line (some re) t = ground arith

  then_match_rule-panics :
      (now : ℤ) (line : String) (regex : Option R) (o : Outcome String)
      → then_call o (match_rule l now line regex panic) ≡ panic
  then_match_rule-panics now line regex panic = refl
  then_match_rule-panics now line regex (returned t) = match_rule-panics now line regex t

  check_rule-panics :
      (clock : Clock) (line : String) (front back : List (Rule R)) (rule : Rule R)
      → FindsNumber line rule
      → check_rule l clock line (front ++ rule ∷ back) ≡ panic
  unfolding check_rule
  check_rule-panics clock line [] back rule h =
      ap
        (λ o.
          then_call o
            (match_rule l (clock (length back)) line rule.regex (check_rule l clock line back)))
        (text_for-panics line rule h)
  check_rule-panics clock line (other ∷ front) back rule h =
      ap
        (λ o.
          then_call (text_for l line other)
            (match_rule l (clock (length (front ++ rule ∷ back))) line other.regex o))
        (check_rule-panics clock line front back rule h)
      ∙ then_match_rule-panics (clock (length (front ++ rule ∷ back))) line other.regex
          (text_for l line other)

  -- A line of standard output in which any of the rules finds an array with a number makes the
  -- program panic, whatever the other rules are.
  pub process_stdout-panics :
      (clock : Clock) (line : String) (c : Command R) (front back : List (Rule R)) (rule : Rule R)
      → c.config.rules ≡ front ++ rule ∷ back
      → FindsNumber line rule
      → process_stdout l clock line c ≡ panic
  unfolding process_stdout
  process_stdout-panics clock line c front back rule at h =
      ground (arith, check_rule-panics clock line front back rule h)
