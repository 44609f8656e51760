-- ===== src/Rng/Tests.antt =====
-- Generators of pkg/rng at concrete draws, with whole numbers for floats and a limit of 0.
use monny.Base.{◌≡◌, refl, ℕ, ◌+◌, ◌≤◌, some, none, [], ◌∷◌, get_or, arith}
use monny.Base.Float.{whole}
use monny.Base.Int.{pos, ◌-ℤ◌}
use monny.Rng.{Source, after, Math, PoissonRng, new_poisson_rng, of_signed, limit_of, poisson_rand}
use monny.Rng.Drawn.{IsFirst, poisson_rand-IsFirst}

abbrev no_base : Math ℕ
no_base = record { e = 0; exp = λ x. x; neg = λ x. x }

abbrev draws : Source ℕ
draws n = get_or (5 ∷ 2 ∷ 0 ∷ 7 ∷ []) n 1

abbrev rng : PoissonRng ℕ
rng = new_poisson_rng 20 draws

two_left : poisson_rand no_base 10 rng ≡ some (2, record rng { r = after 3 draws })
unfolding poisson_rand ◌-ℤ◌
two_left = refl

out_of_fuel : poisson_rand no_base 3 rng ≡ none
unfolding poisson_rand
out_of_fuel = refl

poisson_rand-IsFirst_example :
    (k : ℕ) × (k ≤ 4)
    × IsFirst (limit_of no_base rng) draws k
    × (poisson_rand no_base 10 rng
        ≡ some (of_signed no_base (pos k -ℤ pos 1), record rng { r = after k draws }))
poisson_rand-IsFirst_example = poisson_rand-IsFirst no_base 10 4 rng refl (omega arith)

-- with the rate 0 the first product is not above the limit 1
abbrev base_one : Math ℕ
base_one = record { e = 1; exp = λ x. x; neg = λ x. 100 + x }

minus_one : poisson_rand base_one 1 rng ≡ some (101, record rng { r = after 0 draws })
unfolding poisson_rand ◌-ℤ◌
minus_one = refl
