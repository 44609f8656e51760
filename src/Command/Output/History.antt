-- ===== src/Command/Output/History.antt =====
-- The history of output lines (pkg/monny/command.go, processStdout and processStderr).
use monny.Base.{
  ℕ, suc, ◌-◌, ◌≤◌, ◌<◌, ◌%◌, ◌≡◌, sym, ap, ◌∙◌, List, [], ◌∷◌, ◌++◌, length, length-append, last,
  length-last, drop, drop-append_le, drop-drop_one, arith, Outcome, returned, panic, then_call,
  String, ltb, if◌then◌else◌,
}
use native.Mathlib.Decide.{dec_lt}
use monny.Base.Int.{ℤ, pos, ◌≤ℤ◌}
use monny.Command.Output.{keep_line}

unfoldable pub keep_lines : ℤ → List String → List String → Outcome (List String)
keep_lines limit [] kept = returned kept
keep_lines limit (line ∷ lines) kept =
    then_call (keep_line limit line kept) (keep_lines limit lines)

-- How many lines a history of `limit` lines holds after `n`: at most the limit, and one less at
-- every other line behind it.
abbrev pub held : ℕ → ℕ → ℕ
held limit n = if ltb limit n then limit - (n - limit) % 2 else n

drop-drop_two {ℓ} : {A : Type ℓ} (n : ℕ) (xs : List A) → drop 2 (drop n xs) ≡ drop (suc (suc n)) xs
drop-drop_two n xs =
    sym (drop-drop_one 1 (drop n xs))
    ∙ (ap (drop 1) (drop-drop_one n xs) ∙ drop-drop_one (suc n) xs)

held_early : (limit n : ℕ) → n ≤ limit → held limit n ≡ n
held_early limit n h = ground arith

held_late : (limit n : ℕ) → limit ≤ n → held limit n ≡ limit - (n - limit) % 2
held_late limit n h = ground arith

keep_line-room :
    (limit : ℕ) (line : String) (kept : List String)
    → length kept < limit
    → keep_line (pos limit) line kept ≡ returned (kept ++ (line ∷ []))
unfolding keep_line
keep_line-room limit line kept h = ground arith

keep_line-full :
    (limit : ℕ) (line : String) (kept : List String)
    → limit ≤ length kept
    → 2 ≤ length kept
    → keep_line (pos limit) line kept ≡ returned (drop 2 kept ++ (line ∷ []))
unfolding keep_line
keep_line-full limit line kept h two = ground arith

-- a window that grows by the new line
last-grow :
    (k : ℕ) (seen : List String) (line : String)
    → k ≤ length seen
    → last k seen ++ (line ∷ []) ≡ last (suc k) (seen ++ (line ∷ []))
last-grow k seen line h =
    let same : length (seen ++ (line ∷ [])) - suc k ≡ length seen - k =
      omega (arith, length-append seen (line ∷ [])) in
    sym (
      ap (λ n. drop n (seen ++ (line ∷ []))) same
      ∙ drop-append_le (length seen - k) seen (line ∷ []) (omega arith))

-- a window that loses two lines for the new one
last-shrink :
    (k : ℕ) (seen : List String) (line : String)
    → suc (suc k) ≤ length seen
    → drop 2 (last (suc (suc k)) seen) ++ (line ∷ []) ≡ last (suc k) (seen ++ (line ∷ []))
last-shrink k seen line h =
    let same : suc (suc (length seen - suc (suc k))) ≡ length seen - k = omega arith in
    ap (λ l. l ++ (line ∷ []))
      (drop-drop_two (length seen - suc (suc k)) seen ∙ ap (λ n. drop n seen) same)
    ∙ last-grow k seen line (omega arith)

-- one more line, by the number of those that were seen
pub keep_line-held :
    (limit : ℕ) (line : String) (seen : List String)
    → 2 ≤ limit
    → keep_line (pos limit) line (last (held limit (length seen)) seen)
      ≡ returned (last (held limit (suc (length seen))) (seen ++ (line ∷ [])))
keep_line-held limit line seen two = elim (dec_lt (length seen) limit) [
  | yes early ↦
      grows (held_early limit (length seen) (omega arith))
        (held_early limit (suc (length seen)) (omega arith)) early (omega arith)
  | no late ↦ elim (dec_lt 0 ((length seen - limit) % 2)) [
    | yes odd ↦
        let now : held limit (length seen) ≡ limit - 1 =
          held_late limit (length seen) (omega arith) ∙ omega arith in
        let next : held limit (suc (length seen)) ≡ suc (limit - 1) =
          held_late limit (suc (length seen)) (omega arith) ∙ omega arith in
        grows now next (omega arith) (omega arith)
    | no even ↦
        let now : held limit (length seen) ≡ suc (suc (limit - 2)) =
          held_late limit (length seen) (omega arith) ∙ omega arith in
        let next : held limit (suc (length seen)) ≡ suc (limit - 2) =
          held_late limit (suc (length seen)) (omega arith) ∙ omega arith in
        shrinks now next (omega arith) (omega arith)
  ]
]
  where
    grows :
        {k : ℕ}
        → held limit (length seen) ≡ k
        → held limit (suc (length seen)) ≡ suc k
        → k < limit
        → k ≤ length seen
        → keep_line (pos limit) line (last (held limit (length seen)) seen)
          ≡ returned (last (held limit (suc (length seen))) (seen ++ (line ∷ [])))
    grows {k} now next under fits =
        ap (λ n. keep_line (pos limit) line (last n seen)) now
        ∙ (keep_line-room limit line (last k seen) (omega (arith, length-last k seen fits))
            ∙ ap returned
                (last-grow k seen line fits ∙ ap (λ n. last n (seen ++ (line ∷ []))) (sym next)))

    shrinks :
        {k : ℕ}
        → held limit (length seen) ≡ suc (suc k)
        → held limit (suc (length seen)) ≡ suc k
        → limit ≤ suc (suc k)
        → suc (suc k) ≤ length seen
        → keep_line (pos limit) line (last (held limit (length seen)) seen)
          ≡ returned (last (held limit (suc (length seen))) (seen ++ (line ∷ [])))
    shrinks {k} now next full fits =
        let size = length-last (suc (suc k)) seen fits in
        ap (λ n. keep_line (pos limit) line (last n seen)) now
        ∙ (keep_line-full limit line (last (suc (suc k)) seen) (omega (arith, size))
              (omega (arith, size))
            ∙ ap returned
                (last-shrink k seen line fits ∙ ap (λ n. last n (seen ++ (line ∷ []))) (sym next)))

-- With a limit below two, zero or negative ones included, the second line panics at the latest.
pub keep_lines-panics :
    (limit : ℤ) (line line' : String) (lines : List String)
    → limit ≤ℤ pos 1
    → keep_lines limit (line ∷ line' ∷ lines) [] ≡ panic
unfolding keep_lines keep_line
keep_lines-panics limit line line' lines small = ground arith
