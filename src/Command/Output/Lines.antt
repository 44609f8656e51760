-- ===== src/Command/Output/Lines.antt =====
-- A run of processStdout over the lines of a process (pkg/monny/command.go).

use monny.Base.{
  ℕ, suc, ◌≤◌, ◌≡◌, refl, sym, ap, ap₂, ◌∙◌, List, [], ◌∷◌, ◌++◌, length, last, last-short,
  append-nil, append_assoc, arith, some, Option-cases, inl, inr, Outcome, returned, then_call,
  String, map, if◌then◌else◌, length-append,
}
use monny.Base.Int.{pos, ltb_ℤ}
use monny.Proto.{ReportReason, alert, alert_rate}
use monny.Config.{Rule}
use monny.Command.Record.{Command, RuleMatch}
use monny.Command.Output.{
  Library, Clock, text_for, check_rule, keep_line, note_matches, process_stdout,
}
use monny.Command.Output.History.{held, keep_line-held}

abbrev pub AllCompiled {ℓ} : {R : Type ℓ} → List (Rule R) → Type ℓ
AllCompiled [] = Unit
AllCompiled (rule ∷ rules) = ((re : _) × (rule.regex ≡ some re)) × AllCompiled rules

module _ {ℓ κ} {R : Type ℓ} {F : Type κ} (l : Library R F) where
  -- no rule finds an array with a number in the line
  abbrev pub AllReadable : String → List (Rule R) → Type 0
  AllReadable line [] = Unit
  AllReadable line (rule ∷ rules) =
      ((t : String) × (text_for l line rule ≡ returned t)) × AllReadable line rules

  check_rule-returns :
      (clock : Clock) (line : String) (rules : List (Rule R))
      → AllCompiled rules
      → AllReadable line rules
      → (matches : List RuleMatch) × (check_rule l clock line rules ≡ returned matches)
  unfolding check_rule
  check_rule-returns clock line [] h r = ([], refl)
  check_rule-returns clock line (rule ∷ rules) ((re, have), h) ((t, reads), r) =
      let (matches, rest) = check_rule-returns clock line rules h r in
      elim (Option-cases (l.find_all_index re t)) [
        | inl nil ↦ (matches, ground arith)
        | inr (found, some_found) ↦ (
          (record { time = clock (length rules); line = line; index = found }) ∷ matches,
          ground arith,
        )
      ]

module _ {ℓ} {R : Type ℓ} where
  abbrev sends_of : Command R → List RuleMatch → List ReportReason
  sends_of c [] = []
  sends_of c (m ∷ ms) = (if ltb_ℤ (pos 0) c.config.rule_quantity then alert_rate else alert) ∷ []

  note_matches_lem :
      (matches : List RuleMatch) (c : Command R)
      → note_matches matches c ≡ (
        record c { rule_matches = c.rule_matches ++ matches },
        sends_of c (c.rule_matches ++ matches),
      )
  unfolding note_matches
  note_matches_lem matches c = ground arith

-- a line with the readings of the clock that its processing makes
abbrev pub Entry : Type 0
Entry = Clock × String

abbrev pub line_of : Entry → String
line_of e = e.1

module _ {ℓ κ} {R : Type ℓ} {F : Type κ} (l : Library R F) where
  unfoldable pub process_lines : List Entry → Command R → Outcome (Command R × List ReportReason)
  process_lines [] c = returned (c, [])
  process_lines ((clock, line) ∷ es) c =
      then_call (process_stdout l clock line c)
        (λ r. then_call (process_lines es r.0) (λ r'. returned (r'.0, r.1 ++ r'.1)))

  -- the command behind one line
  abbrev behind_line : List RuleMatch → List String → Command R → Command R
  behind_line matches kept c = record c { rule_matches = c.rule_matches ++ matches; stdout = kept }

  process_stdout-returns :
      (clock : Clock) (line : String) (c : Command R) {matches : List RuleMatch}
      {kept : List String}
      → check_rule l clock line c.config.rules ≡ returned matches
      → keep_line c.config.stdout_history line c.stdout ≡ returned kept
      → process_stdout l clock line c
        ≡ returned (behind_line matches kept c, sends_of c (c.rule_matches ++ matches))
  unfolding process_stdout
  process_stdout-returns clock line c {matches} {kept} checked held =
      ground (arith, note_matches_lem matches c)

  abbrev Kept : ℕ → List String → Command R → Outcome (Command R × List ReportReason) → Type ℓ
  Kept limit seen c r =
      (c' : Command R) × (sends : List ReportReason) × (r ≡ returned (c', sends))
      × (c'.stdout ≡ last (held limit (length seen)) seen)
      × (c'.stderr ≡ c.stderr)
      × (c'.config ≡ c.config)

  abbrev pub ReadsAll : List Entry → List (Rule R) → Type 0
  ReadsAll [] rules = Unit
  ReadsAll (e ∷ es) rules = AllReadable l (line_of e) rules × ReadsAll es rules

  process_lines-from :
      (limit : ℕ) (es : List Entry) (seen : List String) (c : Command R)
      → 2 ≤ limit
      → c.config.stdout_history ≡ pos limit
      → AllCompiled c.config.rules
      → ReadsAll es c.config.rules
      → c.stdout ≡ last (held limit (length seen)) seen
      → Kept limit (seen ++ map line_of es) c (process_lines es c)
  unfolding process_lines
  process_lines-from limit [] seen c two at compiled reads so_far = (
    c,
    [],
    refl,
    so_far ∙ ap (λ xs. last (held limit (length xs)) xs) (sym (append-nil seen)),
    refl,
    refl,
  )
  process_lines-from limit ((clock, line) ∷ es) seen c two at compiled (reads, more) so_far =
      let (matches, checked) = check_rule-returns l clock line c.config.rules compiled reads in
      let seen' : List String = seen ++ (line ∷ []) in
      let kept : List String = last (held limit (suc (length seen))) seen' in
      let keeps : keep_line c.config.stdout_history line c.stdout ≡ returned kept =
        ap₂ (λ most lines. keep_line most line lines) at so_far
        ∙ keep_line-held limit line seen two in
      let started : List ReportReason = sends_of c (c.rule_matches ++ matches) in
      let c' : Command R = behind_line matches kept c in
      let grown : suc (length seen) ≡ length seen' =
        omega (arith, length-append seen (line ∷ [])) in
      let rest =
        process_lines-from limit es seen' c' two at compiled more
          (ap (λ n. last (held limit n) seen') grown) in
      (
        rest.0,
        started ++ rest.1,
        ap (λ r. then_call r (then_lines es)) (process_stdout-returns clock line c checked keeps)
            ∙ ap (λ r. then_call r (λ r'. returned (r'.0, started ++ r'.1))) rest.2,
        rest.3
            ∙ ap (λ xs. last (held limit (length xs)) xs)
                (append_assoc seen (line ∷ []) (map line_of es)),
        rest.4,
        rest.5,
      )
    where
      then_lines :
          List Entry → Command R × List ReportReason → Outcome (Command R × List ReportReason)
      then_lines es r = then_call (process_lines es r.0) (λ r'. returned (r'.0, r.1 ++ r'.1))

  -- On a command that has no output yet, whose rules are compiled and whose limit is at least two
  -- lines, processing lines of standard output in which no rule finds an array with a number
  -- returns, whatever the rules match: the record
  -- holds the last of the lines, in order, all of them up to the limit and behind that as many as
  -- the limit or one less, in turn; standard error and the configuration are left alone.
  pub process_lines-last :
      (limit : ℕ) (es : List Entry) (c : Command R)
      → 2 ≤ limit
      → c.config.stdout_history ≡ pos limit
      → AllCompiled c.config.rules
      → ReadsAll es c.config.rules
      → c.stdout ≡ []
      → (c' : Command R) × (sends : List ReportReason) × (process_lines es c ≡ returned (c', sends))
        × (c'.stdout ≡ last (held limit (length (map line_of es))) (map line_of es))
        × (c'.stderr ≡ c.stderr)
        × (c'.config ≡ c.config)
  process_lines-last limit es c two at compiled reads none_yet =
      process_lines-from limit es [] c two at compiled reads
        (none_yet ∙ sym (last-short (held limit 0) [] (omega arith)))
