-- ===== src/Rng.antt =====
-- pkg/rng: generators of random numbers. The source of `math/rand` is the sequence of the numbers
-- that it will give, and `math.Exp`, `math.E` and the negation of floats are parameters.
pub mod Drawn
mod Tests
use monny.Base.{ℕ, zero, suc, ◌+◌, Option, none, some, if◌then◌else◌}
use monny.Base.Int.{ℤ, pos, negsuc, ◌-ℤ◌}
use monny.Base.Float.{Float}

-- what a `*rand.Rand` gives from now on
abbrev pub Source {ℓ} : Type ℓ → Type ℓ
Source F = ℕ → F

-- the source after `k` draws
abbrev pub after {ℓ} : {F : Type ℓ} → ℕ → Source F → Source F
after k source n = source (k + n)

pub record Math {ℓ} (F : Type ℓ) : Type ℓ where
  pub e : F
  pub exp : F → F
  pub neg : F → F

pub record LogNormalRng {ℓ} (F : Type ℓ) : Type ℓ where
  pub mean : F
  pub stdev : F
  pub r : Source F

pub record PoissonRng {ℓ} (F : Type ℓ) : Type ℓ where
  pub lambda : F
  pub r : Source F

abbrev pub new_log_normal_rng {ℓ} : {F : Type ℓ} → F → F → Source F → LogNormalRng F
new_log_normal_rng mean stdev source = record { mean = mean; stdev = stdev; r = source }

abbrev pub new_poisson_rng {ℓ} : {F : Type ℓ} → F → Source F → PoissonRng F
new_poisson_rng lambda source = record { lambda = lambda; r = source }

module _ {ℓ} {F : Type ℓ} ⦃f : Float F⦄ (m : Math F) where
  unfoldable pub log_normal_rand : LogNormalRng F → F × LogNormalRng F
  log_normal_rand g = (m.exp (f.add (f.mul (g.r 0) g.stdev) g.mean), record g { r = after 1 g.r })

  -- `float64(n)` of an `int64`
  abbrev pub of_signed : ℤ → F
  of_signed (pos n) = f.of_int n
  of_signed (negsuc n) = m.neg (f.of_int (suc n))

  -- the loop of `Rand` with `k` draws behind it, `none` where the fuel does not last
  unfoldable pub draw_loop : ℕ → F → Source F → ℕ → F → Option ℕ
  draw_loop zero limit source k p = none
  draw_loop (suc fuel) limit source k p =
      let rest = draw_loop fuel limit source (suc k) (f.mul p (source k)) in
      if f.lt limit p then rest else some k

  abbrev pub limit_of : PoissonRng F → F
  limit_of g = f.pow m.e (m.neg g.lambda)

  abbrev pub drawn : PoissonRng F → Option ℕ → Option (F × PoissonRng F)
  drawn g none = none
  drawn g (some k) = some (of_signed (pos k -ℤ pos 1), record g { r = after k g.r })

  unfoldable pub poisson_rand : ℕ → PoissonRng F → Option (F × PoissonRng F)
  unfolding draw_loop
  poisson_rand fuel g = drawn g (draw_loop fuel (limit_of g) g.r 0 f.one)
