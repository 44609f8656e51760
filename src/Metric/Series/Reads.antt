-- ===== src/Metric/Series/Reads.antt =====
-- What `Values`, `Count` and `Reset` of a series return after any observations
-- (pkg/metric/series.go).
use monny.Base.{
  ℕ, zero, suc, ◌-◌, ◌%◌, ◌^◌, ◌≤◌, ◌<◌, ◌≡◌, refl, sym, ap, ap₂, ◌∙◌, List, [], ◌∷◌, ◌++◌,
  append-nil, length, take, drop, replicate, map, arith, length-drop, take-append-drop,
  length-replicate, ok, ltb, if◌then◌else◌, if_true, if_false, lt→ltb, ltb_ge,
}
use native.Mathlib.Decide.{dec_lt}
use native.Mathlib.Nat.{mod-eq_of_lt, zero-mod}
use monny.Metric.Series.{
  Series, next_index, record_all, values_of, new_series, with_values, no_name, reset, apply_options,
}
use monny.Metric.Series.Window.{
  rotated, push_all, contents, IsExact, record_all_lem, push_all-eq-drop, next_index-eq-mod,
}

module _ {ℓ} {A : Type ℓ} where
  append-split : (a b c d : List A) → length a ≡ length c → a ++ b ≡ c ++ d → (a ≡ c) × (b ≡ d)
  append-split [] b [] d h e = (refl, e)
  append-split [] b (y ∷ c) d h e = absurd (omega (arith, h))
  append-split (x ∷ a) b [] d h e = absurd (omega (arith, h))
  append-split (x ∷ a) b (y ∷ c) d h e =
      let rest = append-split a b c d (omega (arith, h)) (cc) in (cc (rest.0), rest.1)

  drop-append_ge : (v w : List A) (n : ℕ) → length v ≤ n → drop n (v ++ w) ≡ drop (n - length v) w
  drop-append_ge [] w n h = ap (λ k. drop k w) (omega arith)
  drop-append_ge (x ∷ v) w zero h = absurd (omega arith)
  drop-append_ge (x ∷ v) w (suc n) h =
      drop-append_ge v w n (omega arith) ∙ ap (λ k. drop k w) (omega arith)

  drop-replicate_append :
      (c n : ℕ) (z : A) (w : List A)
      → n ≤ c
      → drop n (replicate c z ++ w) ≡ replicate (c - n) z ++ w
  drop-replicate_append c zero z w h = ap (λ k. replicate k z ++ w) (omega arith)
  drop-replicate_append zero (suc n) z w h = absurd (omega arith)
  drop-replicate_append (suc c) (suc n) z w h =
      drop-replicate_append c n z w (omega arith) ∙ ap (λ k. replicate k z ++ w) (omega arith)

  values_of_not_full : (s : Series A) → s.count < length s.values → values_of s ≡ s.values
  unfolding values_of
  values_of_not_full s h = ground arith

  values_of_full : (s : Series A) → length s.values ≤ s.count → values_of s ≡ contents s
  unfolding values_of
  values_of_full s h = ground arith

  module _ (nought : A) (cap : ℕ) (xs : List A) where
    -- a series of capacity `cap` after the observations `xs`
    abbrev fresh : Series A
    fresh = record { name = no_name; count = 0; values = replicate cap nought }

    abbrev after : Series A
    after = record_all xs fresh

    fresh-IsExact : 0 < cap → cap < 2 ^ 53 → length xs < 2 ^ 53 → IsExact fresh (length xs)
    fresh-IsExact pos small few = omega (arith, length-replicate cap nought)

    contents-fresh : 0 < cap → cap < 2 ^ 53 → contents fresh ≡ replicate cap nought
    contents-fresh pos small =
        ap (λ i. rotated i (replicate cap nought))
          (next_index-eq-mod fresh (omega (arith, length-replicate cap nought))
            ∙ zero-mod (length (replicate cap nought)))
        ∙ append-nil (replicate cap nought)

    -- Everything that is known of the slice after the observations.
    record After : Type ℓ where
      counted : after.count ≡ length xs
      sized : length after.values ≡ cap
      window : contents after ≡ drop (length xs) (replicate cap nought ++ xs)

    after-After : 0 < cap → cap < 2 ^ 53 → length xs < 2 ^ 53 → After
    after-After pos small few =
        let all = record_all_lem xs fresh (fresh-IsExact pos small few) in
        record {
          counted = omega (arith, all.1);
          sized = all.2 ∙ length-replicate cap nought;
          window =
              all.0
              ∙ (ap (push_all xs) (contents-fresh pos small)
                  ∙ push_all-eq-drop xs (replicate cap nought)
                      (omega (arith, length-replicate cap nought)));
        }

    index-after : 0 < cap → cap < 2 ^ 53 → length xs < cap → After → next_index after ≡ length xs
    index-after pos small under a =
        next_index-eq-mod after (omega (arith, a.counted, a.sized))
        ∙ (ap (λ c. c % length after.values) a.counted ∙ mod-eq_of_lt (omega (arith, a.sized)))

    values-under :
        0 < cap
        → cap < 2 ^ 53
        → length xs < cap
        → After
        → after.values ≡ xs ++ replicate (cap - length xs) nought
    values-under pos small under a =
        let turned : rotated (length xs) after.values ≡ replicate (cap - length xs) nought ++ xs =
          ap (λ i. rotated i after.values) (sym (index-after pos small under a))
          ∙ (a.window ∙ drop-replicate_append cap (length xs) nought xs (omega arith)) in
        let parts =
          append-split (drop (length xs) after.values) (take (length xs) after.values)
            (replicate (cap - length xs) nought) xs
            (omega (
              arith,
              length-drop (length xs) after.values,
              a.sized,
              length-replicate (cap - length xs) nought,
            ))
            turned in
        sym (take-append-drop (length xs) after.values) ∙ ap₂ ◌++◌ parts.1 parts.0

    values_of-after :
        0 < cap
        → cap < 2 ^ 53
        → After
        → values_of after ≡ (
            if ltb (length xs) cap
            then xs ++ replicate (cap - length xs) nought
            else drop (length xs - cap) xs)
    values_of-after pos small a = elim (dec_lt (length xs) cap) [
      | yes under ↦
          values_of_not_full after (omega (arith, a.counted, a.sized))
          ∙ (values-under pos small under a ∙ sym (if_true _ _ (lt→ltb _ _ under)))
      | no over ↦
          values_of_full after (omega (arith, a.counted, a.sized))
          ∙ (a.window
              ∙ (drop-append_ge (replicate cap nought) xs (length xs)
                    (omega (arith, length-replicate cap nought))
                  ∙ (ap (λ k. drop (length xs - k) xs) (length-replicate cap nought)
                      ∙ sym (if_false _ _ (ltb_ge (length xs) cap (omega arith))))))
    ]

  -- With a capacity and a number of observations below 2 ^ 53, a series of a positive capacity
  -- `cap` that has seen fewer observations returns them in order, and then zeros; one that has
  -- seen at least `cap` returns the last `cap` of them, oldest first. `Count` is the number of
  -- all observations.
  pub values-new_series :
      (nought : A) (cap : ℕ) (xs : List A)
      → 0 < cap
      → cap < 2 ^ 53
      → length xs < 2 ^ 53
      → (s : Series A) × (new_series nought cap (with_values xs ∷ []) ≡ ok s)
        × (s.count ≡ length xs)
        × (values_of s ≡ (
            if ltb (length xs) cap
            then xs ++ replicate (cap - length xs) nought
            else drop (length xs - cap) xs))
  unfolding new_series with_values apply_options
  values-new_series nought cap xs pos small few =
      let a = after-After nought cap xs pos small few in
      (after nought cap xs, ground arith, a.counted, values_of-after nought cap xs pos small a)

  -- `Reset` leaves a series as one of the same capacity and name that has seen nothing.
  pub reset_lem :
      (nought : A) (s : Series A)
      → reset nought s
        ≡ record { name = s.name; count = 0; values = replicate (length s.values) nought }
  unfolding reset
  reset_lem nought s =
      ap (λ v. record { name = s.name; count = 0; values = v }) (map_const s.values)
    where
      map_const : (v : List A) → map (λ x. nought) v ≡ replicate (length v) nought
      map_const [] = refl
      map_const (x ∷ v) = ap (λ w. nought ∷ w) (map_const v)
