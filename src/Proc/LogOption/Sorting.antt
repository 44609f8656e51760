-- ===== src/Proc/LogOption/Sorting.antt =====
-- A sort of log options by priority, with what the processor relies on in `sort.Slice`.
use monny.Base.{
  ℕ, ◌≤◌, ◌≡◌, refl, Bool, true, false, List, [], ◌∷◌, leb, leb→le, arith, if◌then◌else◌,
}
use monny.Proc.LogOption.{LogOption, priority}
use monny.Proc.LogOption.Order.{Reordered, empty, keep, swap, chain, Reordered_refl, IsAscending}

insert : LogOption → List LogOption → List LogOption
insert o [] = o ∷ []
insert o (x ∷ xs) =
    let rest = insert o xs in if leb (priority o) (priority x) then o ∷ (x ∷ xs) else x ∷ rest

unfoldable pub insertion_sort : List LogOption → List LogOption
unfolding insert
insertion_sort [] = []
insertion_sort (x ∷ xs) = insert x (insertion_sort xs)

put_either :
    (b : Bool) (o x : LogOption) (xs ys : List LogOption)
    → Reordered (o ∷ xs) ys
    → Reordered (o ∷ (x ∷ xs)) (if b then o ∷ (x ∷ xs) else x ∷ ys)
put_either true o x xs ys r = Reordered_refl (o ∷ (x ∷ xs))
put_either false o x xs ys r = chain (swap o x xs) (keep x r)

insert-Reordered : (o : LogOption) (xs : List LogOption) → Reordered (o ∷ xs) (insert o xs)
unfolding insert
insert-Reordered o [] = Reordered_refl (o ∷ [])
insert-Reordered o (x ∷ xs) =
    put_either (leb (priority o) (priority x)) o x xs (insert o xs) (insert-Reordered o xs)

abbrev IsAbove : ℕ → List LogOption → Type 0
IsAbove p [] = Unit
IsAbove p (x ∷ xs) = p ≤ priority x

IsAscending-cons :
    (x : LogOption) (xs : List LogOption)
    → IsAbove (priority x) xs
    → IsAscending xs
    → IsAscending (x ∷ xs)
IsAscending-cons x [] above up = tt
IsAscending-cons x (y ∷ ys) above up = (above, up)

IsAscending-IsAbove :
    (x : LogOption) (xs : List LogOption) → IsAscending (x ∷ xs) → IsAbove (priority x) xs
IsAscending-IsAbove x [] up = tt
IsAscending-IsAbove x (y ∷ ys) up = up.0

IsAscending-rest : (x : LogOption) (xs : List LogOption) → IsAscending (x ∷ xs) → IsAscending xs
IsAscending-rest x [] up = tt
IsAscending-rest x (y ∷ ys) up = up.1

IsAbove-either :
    (b : Bool) (p : ℕ) (o x : LogOption) (xs ys : List LogOption)
    → p ≤ priority o
    → p ≤ priority x
    → IsAbove p (if b then o ∷ (x ∷ xs) else x ∷ ys)
IsAbove-either true p o x xs ys below above = below
IsAbove-either false p o x xs ys below above = above

le_or_ge : (m n : ℕ) → leb m n ≡ false → n ≤ m
le_or_ge m n h = ground arith

IsAscending-split :
    (b : Bool) (o x : LogOption) (xs ys : List LogOption)
    → (b ≡ true → IsAscending (o ∷ (x ∷ xs)))
    → (b ≡ false → IsAscending (x ∷ ys))
    → IsAscending (if b then o ∷ (x ∷ xs) else x ∷ ys)
IsAscending-split true o x xs ys f g = f refl
IsAscending-split false o x xs ys f g = g refl

insert-IsAbove :
    (p : ℕ) (o : LogOption) (xs : List LogOption)
    → p ≤ priority o
    → IsAbove p xs
    → IsAbove p (insert o xs)
unfolding insert
insert-IsAbove p o [] below above = below
insert-IsAbove p o (x ∷ xs) below above =
    IsAbove-either (leb (priority o) (priority x)) p o x xs (insert o xs) below above

insert-IsAscending :
    (o : LogOption) (xs : List LogOption) → IsAscending xs → IsAscending (insert o xs)
unfolding insert
insert-IsAscending o [] up = tt
insert-IsAscending o (x ∷ xs) up =
    IsAscending-split (leb (priority o) (priority x)) o x xs (insert o xs)
      (λ h. (leb→le (priority o) (priority x) h, up))
      (λ h.
        IsAscending-cons x (insert o xs)
          (insert-IsAbove (priority x) o xs (le_or_ge (priority o) (priority x) h)
            (IsAscending-IsAbove x xs up))
          (insert-IsAscending o xs (IsAscending-rest x xs up)))

pub insertion_sort_lem :
    (xs : List LogOption) → Reordered xs (insertion_sort xs) × IsAscending (insertion_sort xs)
unfolding insertion_sort
insertion_sort_lem [] = (empty, tt)
insertion_sort_lem (x ∷ xs) =
    let (r, up) = insertion_sort_lem xs in
    (
      chain (keep x r) (insert-Reordered x (insertion_sort xs)),
      insert-IsAscending x (insertion_sort xs) up,
    )
