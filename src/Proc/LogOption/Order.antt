-- ===== src/Proc/LogOption/Order.antt =====
-- The order of the options does not matter (pkg/monny/proc/logopt.go and logs.go).
use monny.Base.{
  ◌≢◌, Bool-cases, inl, inr, ltb, ltb→lt, ℕ, suc, ◌≤◌, ◌<◌, ◌==◌, ◌≡◌, refl, sym, ap, ◌∙◌, Bool,
  true, false, List, [], ◌∷◌, length, arith, if◌then◌else◌,
}
use mathlib.Core.Path.{subst}
use monny.Proc.LogOption.{LogOption, priority, apply_all, start, default_options, new_log_processor}

-- The second list is the first in another order.
pub data Reordered {ℓ} {A : Type ℓ} : List A → List A → Type ℓ where
  empty : Reordered [] []
  keep : (x : A) {xs ys : List A} → Reordered xs ys → Reordered (x ∷ xs) (x ∷ ys)
  swap : (x y : A) (xs : List A) → Reordered (x ∷ y ∷ xs) (y ∷ x ∷ xs)
  chain : {xs ys zs : List A} → Reordered xs ys → Reordered ys zs → Reordered xs zs

-- the options of a priority
abbrev pub at : ℕ → List LogOption → List LogOption
at p [] = []
at p (opt ∷ opts) = if priority opt == p then opt ∷ at p opts else at p opts

-- no option in front of one of a lower priority
abbrev pub IsAscending : List LogOption → Type 0
IsAscending [] = Unit
IsAscending (opt ∷ []) = Unit
IsAscending (opt ∷ (next ∷ opts)) = (priority opt ≤ priority next) × IsAscending (next ∷ opts)

module _ {ℓ} {A : Type ℓ} where
  pub Reordered_refl : (xs : List A) → Reordered xs xs
  Reordered_refl [] = empty
  Reordered_refl (x ∷ xs) = keep x (Reordered_refl xs)

  length-Reordered : {xs ys : List A} → Reordered xs ys → length xs ≡ length ys
  length-Reordered empty = refl
  length-Reordered (keep x r) = ap suc (length-Reordered r)
  length-Reordered (swap x y xs) = refl
  length-Reordered (chain r r') = length-Reordered r ∙ length-Reordered r'

  Reordered-short : {xs ys : List A} → Reordered xs ys → length xs ≤ 1 → xs ≡ ys
  Reordered-short empty h = refl
  Reordered-short (keep x r) h = ap (λ l. x ∷ l) (Reordered-short r (omega arith))
  Reordered-short (swap x y xs) h = absurd (omega arith)
  Reordered-short (chain r r') h =
      Reordered-short r h ∙ Reordered-short r' (omega (arith, length-Reordered r))

  keep_if :
      (b : Bool) (x : A) (xs ys : List A)
      → Reordered xs ys
      → Reordered (if b then x ∷ xs else xs) (if b then x ∷ ys else ys)
  keep_if true x xs ys r = keep x r
  keep_if false x xs ys r = r

  swap_if :
      (a b : Bool) (x y : A) (xs : List A)
      → Reordered
          (if a then x ∷ (if b then y ∷ xs else xs) else (if b then y ∷ xs else xs))
          (if b then y ∷ (if a then x ∷ xs else xs) else (if a then x ∷ xs else xs))
  swap_if true true x y xs = swap x y xs
  swap_if true false x y xs = Reordered_refl (x ∷ xs)
  swap_if false true x y xs = Reordered_refl (y ∷ xs)
  swap_if false false x y xs = Reordered_refl xs

at-Reordered : (p : ℕ) {xs ys : List LogOption} → Reordered xs ys → Reordered (at p xs) (at p ys)
at-Reordered p empty = empty
at-Reordered p (keep x {xs} {ys} r) =
    keep_if (priority x == p) x (at p xs) (at p ys) (at-Reordered p r)
at-Reordered p (swap x y xs) = swap_if (priority x == p) (priority y == p) x y (at p xs)
at-Reordered p (chain r r') = chain (at-Reordered p r) (at-Reordered p r')

at_below :
    (p : ℕ) (opt : LogOption) (opts : List LogOption)
    → IsAscending (opt ∷ opts)
    → p < priority opt
    → at p (opt ∷ opts) ≡ []
at_below p opt [] h below = ground arith
at_below p opt (next ∷ opts) h below = ground (arith, at_below p next opts h.1)

IsAscending-tail :
    (opt : LogOption) (opts : List LogOption) → IsAscending (opt ∷ opts) → IsAscending opts
IsAscending-tail opt [] h = tt
IsAscending-tail opt (next ∷ opts) h = h.1

at_own :
    (opt : LogOption) (opts : List LogOption)
    → at (priority opt) (opt ∷ opts) ≡ opt ∷ at (priority opt) opts
at_own opt opts = ground arith

cons_head : {a b : LogOption} {xs ys : List LogOption} → a ∷ xs ≡ b ∷ ys → a ≡ b
cons_head h = cc

cons_nil : {a : LogOption} {xs : List LogOption} → a ∷ xs ≢ []
cons_nil h = absurd (cc)

tails_agree :
    (p : ℕ) (opt : LogOption) (xs ys : List LogOption)
    → at p (opt ∷ xs) ≡ at p (opt ∷ ys)
    → at p xs ≡ at p ys
tails_agree p opt xs ys h = ground arith

not_less : (m n : ℕ) → ltb m n ≡ false → n ≤ m
not_less m n h = ground arith

-- no option of the first list is in front of all of the second
not_in_front :
    (a b : LogOption) (xs ys : List LogOption)
    → IsAscending (b ∷ ys)
    → at (priority a) (a ∷ xs) ≡ at (priority a) (b ∷ ys)
    → priority b ≤ priority a
not_in_front a b xs ys up same = elim (Bool-cases (ltb (priority a) (priority b))) [
  | inl less ↦ absurd (
      cons_nil (
        sym (at_own a xs)
        ∙ (same ∙ at_below (priority a) b ys up (ltb→lt (priority a) (priority b) less))))
  | inr other ↦ not_less (priority a) (priority b) other
]

heads_agree :
    (a b : LogOption) (xs ys : List LogOption)
    → priority a ≡ priority b
    → at (priority a) (a ∷ xs) ≡ at (priority a) (b ∷ ys)
    → a ≡ b
heads_agree a b xs ys e same =
    cons_head (sym (at_own a xs) ∙ (same ∙ (ap (λ p. at p (b ∷ ys)) e ∙ at_own b ys)))

IsAscending-unique :
    (xs ys : List LogOption)
    → IsAscending xs
    → IsAscending ys
    → ((p : ℕ) → at p xs ≡ at p ys)
    → xs ≡ ys
IsAscending-unique [] [] h h' same = refl
IsAscending-unique (a ∷ xs) [] h h' same = absurd (cons_nil (sym (at_own a xs) ∙ same (priority a)))
IsAscending-unique [] (b ∷ ys) h h' same =
    absurd (cons_nil (sym (at_own b ys) ∙ sym (same (priority b))))
IsAscending-unique (a ∷ xs) (b ∷ ys) h h' same =
    let up = not_in_front a b xs ys h' (same (priority a)) in
    let down = not_in_front b a ys xs h (sym (same (priority b))) in
    let e = heads_agree a b xs ys (omega (arith, up, down)) (same (priority a)) in
    ap (λ o. o ∷ xs) e
    ∙ ap (λ l. b ∷ l)
        (IsAscending-unique xs ys (IsAscending-tail a xs h) (IsAscending-tail b ys h')
          (λ p. tails_agree p b xs ys (ap (λ o. at p (o ∷ xs)) (sym e) ∙ same p)))

-- Whatever sorting by priority is used, options of which no two have the same priority make the
-- same log processor, with the same sources and sinks, in whichever order they are given.
pub new_log_processor-Reordered :
    (sort sort' : List LogOption → List LogOption)
    → ((opts : List LogOption) → Reordered opts (sort opts) × IsAscending (sort opts))
    → ((opts : List LogOption) → Reordered opts (sort' opts) × IsAscending (sort' opts))
    → (opts opts' : List LogOption) → Reordered opts opts'
    → ((p : ℕ) → length (at p opts) ≤ 1)
    → new_log_processor sort opts ≡ new_log_processor sort' opts'
unfolding new_log_processor
new_log_processor-Reordered sort sort' sorts sorts' opts opts' r once =
    let first : (p : ℕ) → at p opts ≡ at p (sort opts) =
      λ p. Reordered-short (at-Reordered p (sorts opts).0) (once p) in
    let given : (p : ℕ) → at p opts ≡ at p opts' =
      λ p. Reordered-short (at-Reordered p r) (once p) in
    let second : (p : ℕ) → at p opts' ≡ at p (sort' opts') = λ p.
      Reordered-short (at-Reordered p (sorts' opts').0)
        (subst (λ l. length l ≤ 1) (given p) (once p)) in
    ap (λ l. start (apply_all l default_options))
      (IsAscending-unique (sort opts) (sort' opts') (sorts opts).1 (sorts' opts').1
        (λ p. sym (first p) ∙ (given p ∙ second p)))
