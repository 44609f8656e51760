-- ===== src/Metric/Series/Window.antt =====
-- The slice of a series, read from its oldest value on, is a window that each observation pushes
-- out by one (pkg/metric/series.go).
use mathlib.Core.Path.{subst}
use native.Mathlib.Nat.{mod-eq_of_lt, mod-lt, mod_self, suc-mod}
use native.Mathlib.Numerals.{add-one}
use native.Mathlib.Decide.{dec_lt}
use monny.Base.{
  ℕ, zero, suc, ◌+◌, ◌%◌, ◌^◌, ◌<◌, ◌≡◌, refl, sym, ap, ◌∙◌, List, [], ◌∷◌, ◌++◌, append-nil,
  append_assoc, length, set, take, drop, arith, length-set, length-append, length-drop,
}
use monny.Metric.Series.{float_of_int, index_of, Series, next_index, record_value, record_all}

pub float_of_int-exact : (n : ℕ) → n < 2 ^ 53 → float_of_int n ≡ n
unfolding float_of_int
float_of_int-exact n h = ground arith

module _ {ℓ} {A : Type ℓ} where
  -- The index is the count modulo the capacity, as long as both are exact as floats.
  pub index_of-eq-mod :
      (count : ℕ) (values : List A)
      → count < 2 ^ 53
      → length values < 2 ^ 53
      → 0 < length values
      → index_of count values ≡ count % length values
  unfolding index_of
  index_of-eq-mod count values small cap full =
      ground (arith, float_of_int-exact count small, float_of_int-exact (length values) cap)

  -- the slice from index `i` on, going round
  abbrev pub rotated : ℕ → List A → List A
  rotated i v = drop i v ++ take i v

  -- The abstract window: the oldest value leaves, the new one comes last.
  abbrev pub push : A → List A → List A
  push p w = drop 1 w ++ (p ∷ [])

  abbrev pub push_all : List A → List A → List A
  push_all [] w = w
  push_all (p ∷ ps) w = push_all ps (push p w)

  pub push_all-eq-drop : (ps w : List A) → 0 < length w → push_all ps w ≡ drop (length ps) (w ++ ps)
  push_all-eq-drop [] w h = sym (append-nil w)
  push_all-eq-drop (p ∷ ps) [] h = absurd (omega arith)
  push_all-eq-drop (p ∷ ps) (x ∷ w) h =
      push_all-eq-drop ps (w ++ (p ∷ [])) (omega (arith, length-append w (p ∷ [])))
      ∙ ap (drop (length ps)) (append_assoc w (p ∷ []) ps)

  drop-set : (v : List A) (i : ℕ) (p : A) → drop (suc i) (set v i p) ≡ drop 1 (drop i v)
  drop-set [] zero p = refl
  drop-set [] (suc i) p = refl
  drop-set (x ∷ v) zero p = refl
  drop-set (x ∷ v) (suc i) p = drop-set v i p

  take-set :
      (v : List A) (i : ℕ) (p : A) → i < length v → take (suc i) (set v i p) ≡ take i v ++ (p ∷ [])
  take-set [] i p h = absurd (omega arith)
  take-set (x ∷ v) zero p h = refl
  take-set (x ∷ v) (suc i) p h = ap (λ w. x ∷ w) (take-set v i p (omega arith))

  drop-append : (v w : List A) → 0 < length v → drop 1 (v ++ w) ≡ drop 1 v ++ w
  drop-append [] w h = absurd (omega arith)
  drop-append (x ∷ v) w h = refl

  rotated-set :
      (v : List A) (i : ℕ) (p : A)
      → i < length v
      → rotated (suc i) (set v i p) ≡ push p (rotated i v)
  rotated-set v i p h =
      rw
        (
          drop-set,
          take-set v i p h,
          drop-append (drop i v) (take i v) (omega (arith, length-drop i v)),
        )
        (sym (append_assoc (drop 1 (drop i v)) (take i v) (p ∷ [])))

  drop-length : (v : List A) → drop (length v) v ≡ []
  drop-length [] = refl
  drop-length (x ∷ v) = drop-length v

  take-length : (v : List A) → take (length v) v ≡ v
  take-length [] = refl
  take-length (x ∷ v) = ap (λ w. x ∷ w) (take-length v)

  -- going once round comes back to the start
  rotated-length : (v : List A) → rotated (length v) v ≡ rotated 0 v
  rotated-length v = rw (drop-length v, take-length v, append-nil v)

  rotated-mod :
      (v : List A) (n : ℕ)
      → 0 < length v
      → rotated (suc (n % length v)) v ≡ rotated ((n + 1) % length v) v
  rotated-mod v n h = elim (dec_lt (suc (n % length v)) (length v)) [
    | yes inside ↦ ap (λ i. rotated i v) (sym (suc_mod ∙ mod-eq_of_lt inside))
    | no outside ↦
        let last : suc (n % length v) ≡ length v = omega (arith, mod-lt n h) in
        ap (λ i. rotated i v) last
        ∙ (rotated-length v
            ∙ ap (λ i. rotated i v)
                (sym (suc_mod ∙ (ap (λ k. k % length v) last ∙ mod_self (length v)))))
  ]
    where
      suc_mod : (n + 1) % length v ≡ suc (n % length v) % length v
      suc_mod = ap (λ k. k % length v) (add-one n) ∙ suc-mod n (length v)

  -- what the window of a series holds, from the oldest value on
  abbrev pub contents : Series A → List A
  contents s = rotated (next_index s) s.values

  -- Counts and capacities that a float represents exactly, and a slice to write to.
  pub record IsExact (s : Series A) (more : ℕ) : Type 0 where
    pub room : 0 < length s.values
    pub small : length s.values < 2 ^ 53
    pub few : s.count + more < 2 ^ 53

  pub next_index-eq-mod : (s : Series A) → IsExact s 0 → next_index s ≡ s.count % length s.values
  unfolding next_index
  next_index-eq-mod s h = index_of-eq-mod s.count s.values (omega arith) h.small h.room

  abbrev overwritten : A → Series A → Series A
  overwritten p s = record s { values = set s.values (next_index s) p; count = s.count + 1 }

  overwritten-IsExact :
      (p : A) (s : Series A) {more : ℕ} → IsExact s (suc more) → IsExact (overwritten p s) more
  overwritten-IsExact p s h = omega (arith, length-set s.values (next_index s) p)

  contents-overwritten :
      (p : A) (s : Series A) → IsExact s 1 → contents (overwritten p s) ≡ push p (contents s)
  contents-overwritten p s h =
      let inside : next_index s < length s.values =
        omega (arith, at, mod-lt s.count {m = length s.values} h.room) in
      ap (λ i. rotated i written)
        (next_index-eq-mod (overwritten p s) (overwritten-IsExact p s {more = 0} h))
      ∙ (ap (λ k. rotated ((s.count + 1) % k) written) same
          ∙ (ap (λ k. rotated ((s.count + 1) % k) written) (sym same)
              ∙ (sym (rotated-mod written s.count (omega (arith, same, h.room)))
                  ∙ (ap (λ k. rotated (suc (s.count % k)) written) same
                      ∙ (ap (λ i. rotated (suc i) written) (sym at)
                          ∙ rotated-set s.values (next_index s) p inside)))))
    where
      written : List A
      written = set s.values (next_index s) p

      same : length written ≡ length s.values
      same = length-set s.values (next_index s) p

      at : next_index s ≡ s.count % length s.values
      at = next_index-eq-mod s (omega (arith, h))

  -- On a slice with room, `Record` is the overwriting.
  record_value-overwritten :
      (p : A) (s : Series A) → 0 < length s.values → record_value p s ≡ overwritten p s
  unfolding record_value
  record_value-overwritten p s h = ground arith

  pub record_all_lem :
      (ps : List A) (s : Series A)
      → IsExact s (length ps)
      → (contents (record_all ps s) ≡ push_all ps (contents s))
        × ((record_all ps s).count ≡ s.count + length ps)
        × (length (record_all ps s).values ≡ length s.values)
  unfolding record_all
  record_all_lem [] s h = (refl, omega arith, refl)
  record_all_lem (p ∷ ps) s h =
      let one : IsExact s 1 = omega (arith, h) in
      let rest =
        record_all_lem ps (overwritten p s) (overwritten-IsExact p s {more = length ps} h) in
      subst
        (λ t.
          (contents t ≡ push_all ps (push p (contents s)))
          × (t.count ≡ s.count + suc (length ps))
          × (length t.values ≡ length s.values))
        (sym (ap (record_all ps) (record_value-overwritten p s h.room)))
        (
          rest.0 ∙ ap (push_all ps) (contents-overwritten p s one),
          omega (arith, rest.1),
          rest.2 ∙ length-set s.values (next_index s) p,
        )
