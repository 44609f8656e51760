-- ===== src/Rng/Drawn.antt =====
-- Knuth's algorithm ends with the first product that is not above the limit (pkg/rng/poisson.go).
use monny.Base.{
  ◌≡◌, ◌∙◌, ap, ℕ, zero, suc, ◌+◌, ◌≤◌, ◌<◌, true, false, some, arith, Bool-cases, inl, inr,
  if_true, if_false,
}
use native.Mathlib.Decide.{ℕ_discrete}
use monny.Base.Int.{pos, ◌-ℤ◌}
use monny.Base.Float.{Float}
use monny.Rng.{Source, after, Math, PoissonRng, of_signed, draw_loop, limit_of, drawn, poisson_rand}

module _ {ℓ} {F : Type ℓ} ⦃f : Float F⦄ where
  -- the product of the first `n` draws
  abbrev pub product : Source F → ℕ → F
  product source zero = f.one
  product source (suc n) = f.mul (product source n) (source n)

  -- The first `k` products are above the limit and the next one is not.
  abbrev pub IsFirst : F → Source F → ℕ → Type 0
  IsFirst limit source k =
      (f.lt limit (product source k) ≡ false)
      × ((i : ℕ) → i < k → f.lt limit (product source i) ≡ true)

  IsFirst-step :
      (limit : F) (source : Source F) (k : ℕ)
      → ((i : ℕ) → i < k → f.lt limit (product source i) ≡ true)
      → f.lt limit (product source k) ≡ true
      → (i : ℕ) → i < suc k
      → f.lt limit (product source i) ≡ true
  IsFirst-step limit source k above up i small = elim (ℕ_discrete i k) [
    | yes e ↦ rw e up
    | no other ↦ above i (omega arith)
  ]

  still_before :
      (limit : F) (source : Source F) (k n : ℕ)
      → k ≤ n
      → f.lt limit (product source k) ≡ true
      → f.lt limit (product source n) ≡ false
      → k < n
  still_before limit source k n from up low = elim (ℕ_discrete k n) [
    | yes e ↦ absurd (cc)
    | no other ↦ omega arith
  ]

  module _ (m : Math F) (limit : F) (source : Source F) where
    draw_loop-IsFirst :
        (fuel k : ℕ) (n : ℕ)
        → k ≤ n
        → n < k + fuel
        → f.lt limit (product source n) ≡ false
        → ((i : ℕ) → i < k → f.lt limit (product source i) ≡ true)
        → (found : ℕ) × (found ≤ n)
          × IsFirst limit source found
          × (draw_loop m fuel limit source k (product source k) ≡ some found)
    unfolding draw_loop
    draw_loop-IsFirst zero k n from fits low above = absurd (omega arith)
    draw_loop-IsFirst (suc fuel) k n from fits low above =
        elim (Bool-cases (f.lt limit (product source k))) [
          | inl up ↦
              let (found, small, first, e) =
                draw_loop-IsFirst fuel (suc k) n (still_before limit source k n from up low)
                  (omega arith) low (IsFirst-step limit source k above up) in
              (found, small, first, if_true _ _ up ∙ e)
          | inr down ↦ (k, from, (down, above), if_false _ _ down)
        ]

  -- If some product of draws is not above e ^ -lambda, `Rand` of PoissonRNG ends, whatever the laws
  -- of floats are: with fuel for that many draws it stops at the first such product, has drawn
  -- exactly the numbers of that product, and returns their count less one.
  pub poisson_rand-IsFirst :
      (m : Math F) (fuel n : ℕ) (g : PoissonRng F)
      → f.lt (limit_of m g) (product g.r n) ≡ false
      → n < fuel
      → (k : ℕ) × (k ≤ n)
        × IsFirst (limit_of m g) g.r k
        × (poisson_rand m fuel g
            ≡ some (of_signed m (pos k -ℤ pos 1), record g { r = after k g.r }))
  unfolding poisson_rand
  poisson_rand-IsFirst m fuel n g low fits =
      let (k, small, first, e) =
        draw_loop-IsFirst m (limit_of m g) g.r fuel 0 n (omega arith) (omega arith) low
          (λ i h. absurd (omega arith)) in
      (k, small, first, ap (drawn m g) e)
