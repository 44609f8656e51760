-- ===== src/Command/Memory.antt =====
-- The memory of a process (pkg/monny/handlers.go, CheckMemory) over a run of the loop of Exec.
use mathlib.Core.Path.{subst}
use monny.Base.{
  ℕ, ◌+◌, ◌≡◌, refl, sym, ap, ◌∙◌, Bool, true, false, ◌&&◌, ◌||◌, not, List, [], ◌∷◌, ◌++◌, arith,
  ltb, leb, if◌then◌else◌, ◌⊎◌, inl, inr,
}
use monny.Proto.{ReportReason, memory_warning}
use monny.Config.{Config}
use monny.Command.Record.{Command}
use monny.Command.Handlers.{on_time_warning, check_memory}
use monny.Command.Loop.{
  Event, kill_timeout, notify_timeout, memory_profile, is_armed, react, exec_loop,
}

-- the highest of `m` and the memory that was measured
unfoldable pub highest : ℕ → List Event → ℕ
highest m [] = m
highest m (memory_profile mem now ∷ es) = highest (if ltb m mem then mem else m) es
highest m (_ ∷ es) = highest m es

-- whether a measure reaches the limit for a warning, which 0 turns off
unfoldable pub reaches : ℕ → List Event → Bool
reaches limit [] = false
reaches limit (memory_profile mem now ∷ es) =
    let rest = reaches limit es in (ltb 0 limit && leb limit mem) || rest
reaches limit (_ ∷ es) = reaches limit es

abbrev is_memory_warning : ReportReason → Bool
is_memory_warning memory_warning = true
is_memory_warning _ = false

unfoldable pub count_warnings : List ReportReason → ℕ
count_warnings [] = 0
count_warnings (r ∷ rs) = if is_memory_warning r then 1 + count_warnings rs else count_warnings rs

count_warnings-append :
    (xs ys : List ReportReason) → count_warnings (xs ++ ys) ≡ count_warnings xs + count_warnings ys
unfolding count_warnings
count_warnings-append [] ys = omega arith
count_warnings-append (x ∷ xs) ys = ground (arith, count_warnings-append xs ys)

highest-cons :
    (m : ℕ) (e : Event) (es : List Event) → highest m (e ∷ es) ≡ highest (highest m (e ∷ [])) es
unfolding highest
highest-cons m (memory_profile mem now) es = refl
highest-cons m _ es = refl

reaches-cons :
    (limit : ℕ) (e : Event) (es : List Event)
    → reaches limit (e ∷ es) ≡ (reaches limit (e ∷ []) || reaches limit es)
unfolding reaches
reaches-cons limit (memory_profile mem now) es = ground arith
reaches-cons limit _ es = refl

module _ {ℓ} {R : Type ℓ} where
  -- one round that does not end the loop
  abbrev Round : Event → Command R → Type ℓ
  Round e c =
      ((react e c).0.config ≡ c.config)
      × ((react e c).0.max_memory ≡ highest c.max_memory (e ∷ []))
      × ((react e c).0.mem_warn_sent ≡ (c.mem_warn_sent || reaches c.config.memory_warn (e ∷ [])))
      × (count_warnings (react e c).1
          ≡ (if reaches c.config.memory_warn (e ∷ []) && not c.mem_warn_sent then 1 else 0))

  react-Round : (e : Event) (c : Command R) → (react e c).2 ≡ false → Round e c
  unfolding react on_time_warning check_memory highest reaches count_warnings
  react-Round (memory_profile mem now) c over = ground arith
  react-Round notify_timeout c over = ground arith
  react-Round _ c over = ground arith

  unarmed :
      (cfg : Config R) (e : Event) (m limit : ℕ)
      → is_armed cfg e ≡ false
      → (highest m (e ∷ []) ≡ m) × (reaches limit (e ∷ []) ≡ false)
  unfolding is_armed highest reaches
  unarmed cfg (kill_timeout now) m limit h = (refl, refl)
  unarmed cfg notify_timeout m limit h = (refl, refl)
  unarmed cfg _ m limit h = cc

  exec_loop-cases :
      (e : Event) (es : List Event) (c : Command R)
      → (exec_loop (e ∷ es) c).2 ≡ false
      → ((is_armed c.config e ≡ false) × (exec_loop (e ∷ es) c ≡ exec_loop es c))
        ⊎ (((react e c).2 ≡ false)
            × (exec_loop (e ∷ es) c ≡ (
              (exec_loop es (react e c).0).0,
              (react e c).1 ++ (exec_loop es (react e c).0).1,
              (exec_loop es (react e c).0).2,
            )))
  unfolding exec_loop
  exec_loop-cases e es c h = ground arith

  -- what the loop has made of the memory, as long as it runs
  abbrev Measured : List Event → Command R → Command R → List ReportReason → Type 0
  Measured es c c' sends =
      (c'.max_memory ≡ highest c.max_memory es)
      × (c'.mem_warn_sent ≡ (c.mem_warn_sent || reaches c.config.memory_warn es))
      × (count_warnings sends
          ≡ (if reaches c.config.memory_warn es && not c.mem_warn_sent then 1 else 0))

  round-Measured :
      (e : Event) (es : List Event) (c c' d : Command R) (sends more : List ReportReason)
      → c'.config ≡ c.config
      → Measured (e ∷ []) c c' sends
      → Measured es c' d more
      → Measured (e ∷ es) c d (sends ++ more)
  round-Measured e es c c' d sends more same one rest = ground (
    arith,
    highest-cons c.max_memory e es,
    reaches-cons c.config.memory_warn e es,
    count_warnings-append sends more,
  )

  exec_loop-none : (c : Command R) → Measured [] c (exec_loop [] c).0 (exec_loop [] c).1
  unfolding exec_loop highest reaches count_warnings
  exec_loop-none c = ground arith

  skipped-Measured :
      (e : Event) (es : List Event) (c d : Command R) (sends : List ReportReason)
      → is_armed c.config e ≡ false
      → Measured es c d sends
      → Measured (e ∷ es) c d sends
  skipped-Measured e es c d sends off rest = ground (
    arith,
    highest-cons c.max_memory e es,
    reaches-cons c.config.memory_warn e es,
    unarmed c.config e c.max_memory c.config.memory_warn off,
  )

  -- As long as the loop of Exec runs, the maximum of the record is that of all measured memory, and
  -- a memory warning has been raised once if a measure has reached its limit and none had been
  -- raised before, and otherwise not at all.
  pub exec_loop-memory :
      (es : List Event) (c : Command R)
      → (exec_loop es c).2 ≡ false
      → let (c', sends, over) = exec_loop es c in
        (c'.max_memory ≡ highest c.max_memory es)
        × (c'.mem_warn_sent ≡ (c.mem_warn_sent || reaches c.config.memory_warn es))
        × (count_warnings sends
            ≡ (if reaches c.config.memory_warn es && not c.mem_warn_sent then 1 else 0))
  exec_loop-memory [] c h = exec_loop-none c
  exec_loop-memory (e ∷ es) c h = elim (exec_loop-cases e es c h) [
    | inl (off, skipped) ↦
        subst (λ t. Measured (e ∷ es) c t.0 t.1) (sym skipped)
          (skipped-Measured e es c (exec_loop es c).0 (exec_loop es c).1 off
            (exec_loop-memory es c (sym (ap (λ t. t.2) skipped) ∙ h)))
    | inr (more, taken) ↦
        let one = react-Round e c more in
        let c' = (react e c).0 in
        subst (λ t. Measured (e ∷ es) c t.0 t.1) (sym taken)
          (round-Measured e es c c' (exec_loop es c').0 (react e c).1 (exec_loop es c').1 one.0
            (one.1, one.2, one.3) (exec_loop-memory es c' (sym (ap (λ t. t.2) taken) ∙ h)))
  ]
