-- ===== src/Metric/Counter/History.antt =====
-- The history of a windowed counter: which old counters `newHistory` keeps
-- (pkg/metric/counter.go).
use monny.Base.{
  ℕ, ◌-◌, ◌≤◌, ◌≡◌, refl, sym, ap, ◌∙◌, Bool, true, false, ◌&&◌, List, [], ◌∷◌, drop, length, ltb,
  if◌then◌else◌, zero, suc, arith, Bool-cases, if_both, inl, inr, lt→ltb, if_true, ◌⊎◌,
}
use native.Mathlib.Decide.{dec_lt}
use monny.Base.Int.{ℤ, pos, negsuc, ◌-ℤ◌, ◌≤ℤ◌, ltb_ℤ, pos_part}
use monny.Metric.Counter.{Clock, Counter, keep_recent, last_of, new_history}

-- the age of a counter that has `hist` behind it, by the reading of the clock that is its own
abbrev pub age : Clock → Counter → List Counter → ℤ
age clock c hist = clock (length hist) -ℤ c.start

-- Oldest first: no counter is older, when its age is taken, than the one in front of it was. So it
-- is for counters that are ordered by their starts, as `Add` appends them, unless the clock advances
-- between two of its readings by more than their starts differ.
abbrev pub OldestFirst : Clock → List Counter → Type 0
OldestFirst clock [] = Unit
OldestFirst clock (c ∷ []) = Unit
OldestFirst clock (c ∷ d ∷ hist) =
    (age clock d hist ≤ℤ age clock c (d ∷ hist)) × OldestFirst clock (d ∷ hist)

OldestFirst-tail :
    (clock : Clock) (c : Counter) (hist : List Counter)
    → OldestFirst clock (c ∷ hist)
    → OldestFirst clock hist
OldestFirst-tail clock c [] h = tt
OldestFirst-tail clock c (d ∷ hist) h = h.1

-- `MaxHistoryDuration` first, then `MaxHistory`: the order that the type's comment describes.
pub documented_history : Clock → List Counter → ℤ → ℤ → List Counter
documented_history clock hist max max_duration =
    last_of max (if ltb_ℤ (pos 0) max_duration then keep_recent clock max_duration hist else hist)

module _ (clock : Clock) (max_duration : ℤ) where
  abbrev is_old : Counter → List Counter → Bool
  is_old c hist = ltb_ℤ max_duration (age clock c hist)

  abbrev AllRecent : List Counter → Type 0
  AllRecent [] = Unit
  AllRecent (c ∷ hist) = (is_old c hist ≡ false) × AllRecent hist

  -- a counter that is no older than a recent one is recent
  is_old_mono : (a b : ℤ) → b ≤ℤ a → ltb_ℤ max_duration a ≡ false → ltb_ℤ max_duration b ≡ false
  is_old_mono a b h r = ground arith

  OldestFirst-AllRecent :
      (c : Counter) (hist : List Counter)
      → OldestFirst clock (c ∷ hist)
      → is_old c hist ≡ false
      → AllRecent (c ∷ hist)
  OldestFirst-AllRecent c [] h r = (r, tt)
  OldestFirst-AllRecent c (d ∷ hist) h r = (
    r,
    OldestFirst-AllRecent d hist h.1
        (is_old_mono (age clock c (d ∷ hist)) (age clock d hist) h.0 r),
  )

  keep_recent-all :
      (hist : List Counter) → AllRecent hist → keep_recent clock max_duration hist ≡ hist
  unfolding keep_recent
  keep_recent-all [] h = refl
  keep_recent-all (c ∷ hist) h = rw (h.0, keep_recent-all hist h.1)

  AllRecent-drop : (n : ℕ) (hist : List Counter) → AllRecent hist → AllRecent (drop n hist)
  AllRecent-drop zero hist h = h
  AllRecent-drop (suc n) [] h = h
  AllRecent-drop (suc n) (c ∷ hist) h = AllRecent-drop n hist h.1

  length-keep_recent :
      (hist : List Counter) → length (keep_recent clock max_duration hist) ≤ length hist
  unfolding keep_recent
  length-keep_recent [] = omega arith
  length-keep_recent (c ∷ hist) = ground (arith, length-keep_recent hist)

  keep_recent-old :
      (c : Counter) (hist : List Counter)
      → is_old c hist ≡ true
      → keep_recent clock max_duration (c ∷ hist) ≡ keep_recent clock max_duration hist
  unfolding keep_recent
  keep_recent-old c hist o = rw o

  AllRecent-last_of :
      (max : ℤ) (hist : List Counter) → AllRecent hist → AllRecent (last_of max hist)
  unfolding last_of
  AllRecent-last_of max hist h =
      if_both AllRecent (ltb_ℤ (pos 0) max && ltb (pos_part max) (length hist))
        (drop (length hist - pos_part max) hist) hist (AllRecent-drop _ hist h) h

last_of-short :
    (max : ℤ) (hist : List Counter) → length hist ≤ pos_part max → last_of max hist ≡ hist
unfolding last_of
last_of-short max hist h = ground arith

last_of-unlimited : (max : ℤ) (hist : List Counter) → max ≤ℤ pos 0 → last_of max hist ≡ hist
unfolding last_of
last_of-unlimited max hist h = ground arith

last_of-drop :
    (max : ℤ) (hist : List Counter)
    → ltb_ℤ (pos 0) max ≡ true
    → last_of max hist ≡ drop (length hist - pos_part max) hist
last_of-drop max hist p = elim (dec_lt (pos_part max) (length hist)) [
  | yes longer ↦
      unfold last_of in
      if_true (drop (length hist - pos_part max) hist) hist
        (ap (λ t. t && ltb (pos_part max) (length hist)) p ∙ lt→ltb _ _ longer)
  | no short ↦
      let none_over : 0 ≡ length hist - pos_part max = omega arith in
      last_of-short max hist (omega arith) ∙ ap (λ k. drop k hist) none_over
]

last_of-cons :
    (max : ℤ) (c : Counter) (hist : List Counter)
    → pos_part max ≤ length hist
    → ltb_ℤ (pos 0) max ≡ true
    → last_of max (c ∷ hist) ≡ last_of max hist
last_of-cons max c hist h p =
    let over : suc (length hist) - pos_part max ≡ suc (length hist - pos_part max) = omega arith in
    last_of-drop max (c ∷ hist) p
    ∙ (ap (λ k. drop k (c ∷ hist)) over ∙ sym (last_of-drop max hist p))

module _ (clock : Clock) (max max_duration : ℤ) where
  abbrev keep : List Counter → List Counter
  keep = keep_recent clock max_duration

  -- the oldest counter is too old: neither order keeps it
  old_case :
      (c : Counter) (hist : List Counter)
      → is_old clock max_duration c hist ≡ true
      → keep (last_of max hist) ≡ last_of max (keep hist)
      → (ltb_ℤ (pos 0) max ≡ true) ⊎ (max ≤ℤ pos 0)
      → keep (last_of max (c ∷ hist)) ≡ last_of max (keep (c ∷ hist))
  old_case c hist old ih (inr unlimited) =
      ap keep (last_of-unlimited max (c ∷ hist) unlimited)
      ∙ sym (last_of-unlimited max (keep (c ∷ hist)) unlimited)
  old_case c hist old ih (inl limited) = elim (dec_lt (length hist) (pos_part max)) [
    | yes fits ↦
        ap keep (last_of-short max (c ∷ hist) (omega arith))
        ∙ (keep_recent-old clock max_duration c hist old
            ∙ (sym (
                  last_of-short max (keep hist)
                    (omega (arith, length-keep_recent clock max_duration hist)))
                ∙ ap (last_of max) (sym (keep_recent-old clock max_duration c hist old))))
    | no longer ↦
        ap keep (last_of-cons max c hist (omega arith) limited)
        ∙ (ih ∙ ap (last_of max) (sym (keep_recent-old clock max_duration c hist old)))
  ]

  limited_or : (m : ℤ) → (ltb_ℤ (pos 0) m ≡ true) ⊎ (m ≤ℤ pos 0)
  limited_or (pos zero) = inr (omega arith)
  limited_or (pos (suc n)) = inl (ground arith)
  limited_or (negsuc n) = inr (omega arith)

  commutes :
      (hist : List Counter)
      → OldestFirst clock hist
      → keep_recent clock max_duration (last_of max hist)
        ≡ last_of max (keep_recent clock max_duration hist)
  commutes [] h =
      ap (keep_recent clock max_duration) (last_of-short max [] (omega arith))
      ∙ sym (
          last_of-short max (keep_recent clock max_duration [])
            (omega (arith, length-keep_recent clock max_duration [])))
  commutes (c ∷ hist) h = elim (Bool-cases (is_old clock max_duration c hist)) [
    | inr recent ↦
        let all = OldestFirst-AllRecent clock max_duration c hist h recent in
        keep_recent-all clock max_duration (last_of max (c ∷ hist))
          (AllRecent-last_of clock max_duration max (c ∷ hist) all)
        ∙ ap (last_of max) (sym (keep_recent-all clock max_duration (c ∷ hist) all))
    | inl old ↦
        old_case c hist old (commutes hist (OldestFirst-tail clock c hist h)) (limited_or max)
  ]

-- On a history whose counters are ordered by the age that is taken of each, the oldest first,
-- applying `MaxHistory` first, as the code does, and `MaxHistoryDuration` first, as the comment
-- says, keep the same counters, whatever the limits.
pub new_history-eq-documented :
    (clock : Clock) (hist : List Counter) (max max_duration : ℤ)
    → OldestFirst clock hist
    → new_history clock hist max max_duration ≡ documented_history clock hist max max_duration
unfolding new_history documented_history
new_history-eq-documented clock hist max max_duration h =
    ground (arith, commutes clock max max_duration hist h, last_of-unlimited max hist)
