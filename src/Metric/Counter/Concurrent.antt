-- ===== src/Metric/Counter/Concurrent.antt =====
-- pkg/metric/counter.go: ConcurrentCounter. Goroutines add to one counter; each Add takes the lock,
-- reads the value, writes the sum back and releases the lock, in steps between which any other
-- goroutine may take steps of its own. The value is kept by its 64 bits, as in Counter.
use monny.Base.{
  ℕ, ◌+◌, ◌%◌, ◌^◌, ◌≡◌, refl, sym, ap, ◌∙◌, Bool, true, false, List, [], ◌∷◌, ◌++◌, arith,
}

-- A goroutine with the amounts that it still adds: without the lock, with the lock, with the value
-- that it has read, and with its sum written.
pub data Goroutine : Type 0 where
  idle : List ℕ → Goroutine
  locked : ℕ → List ℕ → Goroutine
  loaded : ℕ → ℕ → List ℕ → Goroutine
  stored : List ℕ → Goroutine

pub record Shared : Type 0 where
  pub value : ℕ
  pub mu : Bool
  pub goroutines : List Goroutine

pub data Step : Shared → Shared → Type 0 where
  lock_step :
      (front back : List Goroutine) (i : ℕ) (todo : List ℕ) (v : ℕ)
      → Step
          (record { value = v; mu = false; goroutines = front ++ idle (i ∷ todo) ∷ back })
          (record { value = v; mu = true; goroutines = front ++ locked i todo ∷ back })
  load_step :
      (front back : List Goroutine) (i : ℕ) (todo : List ℕ) (v : ℕ) (m : Bool)
      → Step
          (record { value = v; mu = m; goroutines = front ++ locked i todo ∷ back })
          (record { value = v; mu = m; goroutines = front ++ loaded v i todo ∷ back })
  store_step :
      (front back : List Goroutine) (w i : ℕ) (todo : List ℕ) (v : ℕ) (m : Bool)
      → Step
          (record { value = v; mu = m; goroutines = front ++ loaded w i todo ∷ back })
          (record { value = (w + i) % 2 ^ 64; mu = m; goroutines = front ++ stored todo ∷ back })
  unlock_step :
      (front back : List Goroutine) (todo : List ℕ) (v : ℕ) (m : Bool)
      → Step
          (record { value = v; mu = m; goroutines = front ++ stored todo ∷ back })
          (record { value = v; mu = false; goroutines = front ++ idle todo ∷ back })

pub data Steps : Shared → Shared → Type 0 where
  stop : {s : Shared} → Steps s s
  then_step : {s s' s'' : Shared} → Step s s' → Steps s' s'' → Steps s s''

abbrev pub sum : List ℕ → ℕ
sum [] = 0
sum (i ∷ todo) = i + sum todo

-- what a goroutine has still to write
abbrev left : Goroutine → ℕ
left (idle todo) = sum todo
left (locked i todo) = i + sum todo
left (loaded v i todo) = i + sum todo
left (stored todo) = sum todo

abbrev pub remaining : List Goroutine → ℕ
remaining [] = 0
remaining (g ∷ gs) = left g + remaining gs

abbrev holds : Goroutine → ℕ
holds (idle todo) = 0
holds _ = 1

abbrev holders : List Goroutine → ℕ
holders [] = 0
holders (g ∷ gs) = holds g + holders gs

abbrev one_if : Bool → ℕ
one_if true = 1
one_if false = 0

-- a value that was read is the one that stands there
abbrev IsCurrent : ℕ → Goroutine → Type 0
IsCurrent v (loaded w i todo) = w ≡ v
IsCurrent v _ = Unit

abbrev AllCurrent : ℕ → List Goroutine → Type 0
AllCurrent v [] = Unit
AllCurrent v (g ∷ gs) = IsCurrent v g × AllCurrent v gs

remaining-append : (xs ys : List Goroutine) → remaining (xs ++ ys) ≡ remaining xs + remaining ys
remaining-append [] ys = omega arith
remaining-append (x ∷ xs) ys = omega (arith, remaining-append xs ys)

holders-append : (xs ys : List Goroutine) → holders (xs ++ ys) ≡ holders xs + holders ys
holders-append [] ys = omega arith
holders-append (x ∷ xs) ys = omega (arith, holders-append xs ys)

AllCurrent-append :
    (v : ℕ) (xs ys : List Goroutine) → AllCurrent v xs → AllCurrent v ys → AllCurrent v (xs ++ ys)
AllCurrent-append v [] ys p q = q
AllCurrent-append v (x ∷ xs) ys p q = (p.0, AllCurrent-append v xs ys p.1 q)

AllCurrent-split :
    (v : ℕ) (xs ys : List Goroutine) → AllCurrent v (xs ++ ys) → AllCurrent v xs × AllCurrent v ys
AllCurrent-split v [] ys p = (tt, p)
AllCurrent-split v (x ∷ xs) ys p = let (q, r) = AllCurrent-split v xs ys p.1 in ((p.0, q), r)

AllCurrent-idle : (v : ℕ) (gs : List Goroutine) → holders gs ≡ 0 → AllCurrent v gs
AllCurrent-idle v [] h = tt
AllCurrent-idle v (idle todo ∷ gs) h = (tt, AllCurrent-idle v gs (omega arith))
AllCurrent-idle v (locked i todo ∷ gs) h = absurd (omega arith)
AllCurrent-idle v (loaded w i todo ∷ gs) h = absurd (omega arith)
AllCurrent-idle v (stored todo ∷ gs) h = absurd (omega arith)

-- at most one goroutine has the lock, what it has read is current, and what is written and what
-- remains add up to the total
abbrev Fits : ℕ → Shared → Type 0
Fits total s =
    ((s.value + remaining s.goroutines) % 2 ^ 64 ≡ total % 2 ^ 64)
    × (holders s.goroutines ≡ one_if s.mu)
    × AllCurrent s.value s.goroutines

one_if_taken : (m : Bool) (a b : ℕ) → a + (1 + b) ≡ one_if m → (a ≡ 0) × (b ≡ 0) × (one_if m ≡ 1)
one_if_taken true a b h = (omega arith, omega arith, refl)
one_if_taken false a b h = absurd (omega arith)

Step-Fits : {s s' : Shared} (total : ℕ) → Step s s' → Fits total s → Fits total s'
Step-Fits total (lock_step front back i todo v) (sums, one, current) =
    let (p, q) = AllCurrent-split v front (idle (i ∷ todo) ∷ back) current in
    (
      omega (
        arith,
        sums,
        remaining-append front (idle (i ∷ todo) ∷ back),
        remaining-append front (locked i todo ∷ back),
      ),
      omega (
        arith,
        one,
        holders-append front (idle (i ∷ todo) ∷ back),
        holders-append front (locked i todo ∷ back),
      ),
      AllCurrent-append v front (locked i todo ∷ back) p (tt, q.1),
    )
Step-Fits total (load_step front back i todo v m) (sums, one, current) =
    let (p, q) = AllCurrent-split v front (locked i todo ∷ back) current in
    (
      omega (
        arith,
        sums,
        remaining-append front (locked i todo ∷ back),
        remaining-append front (loaded v i todo ∷ back),
      ),
      omega (
        arith,
        one,
        holders-append front (locked i todo ∷ back),
        holders-append front (loaded v i todo ∷ back),
      ),
      AllCurrent-append v front (loaded v i todo ∷ back) p (refl, q.1),
    )
Step-Fits total (store_step front back w i todo v m) (sums, one, current) =
    let (p, q) = AllCurrent-split v front (loaded w i todo ∷ back) current in
    let (none_front, none_back, taken) =
      one_if_taken m (holders front) (holders back)
        (sym (holders-append front (loaded w i todo ∷ back)) ∙ one) in
    (
      omega (
        arith,
        sums,
        q.0,
        remaining-append front (loaded w i todo ∷ back),
        remaining-append front (stored todo ∷ back),
      ),
      omega (
        arith,
        one,
        holders-append front (loaded w i todo ∷ back),
        holders-append front (stored todo ∷ back),
      ),
      AllCurrent-append ((w + i) % 2 ^ 64) front (stored todo ∷ back)
          (AllCurrent-idle ((w + i) % 2 ^ 64) front none_front)
          (tt, AllCurrent-idle ((w + i) % 2 ^ 64) back none_back),
    )
Step-Fits total (unlock_step front back todo v m) (sums, one, current) =
    let (p, q) = AllCurrent-split v front (stored todo ∷ back) current in
    let (none_front, none_back, taken) =
      one_if_taken m (holders front) (holders back)
        (sym (holders-append front (stored todo ∷ back)) ∙ one) in
    (
      omega (
        arith,
        sums,
        remaining-append front (stored todo ∷ back),
        remaining-append front (idle todo ∷ back),
      ),
      omega (arith, none_front, none_back, holders-append front (idle todo ∷ back)),
      AllCurrent-append v front (idle todo ∷ back) p (tt, q.1),
    )

Steps-Fits : {s s' : Shared} (total : ℕ) → Steps s s' → Fits total s → Fits total s'
Steps-Fits total stop h = h
Steps-Fits total (then_step step rest) h = Steps-Fits total rest (Step-Fits total step h)

-- goroutines that have not begun
abbrev pub begun : List (List ℕ) → List Goroutine
begun [] = []
begun (todo ∷ all) = idle todo ∷ begun all

abbrev pub total_of : List (List ℕ) → ℕ
total_of [] = 0
total_of (todo ∷ all) = sum todo + total_of all

begun-remaining :
    (all : List (List ℕ)) → (remaining (begun all) ≡ total_of all) × (holders (begun all) ≡ 0)
begun-remaining [] = (refl, refl)
begun-remaining (todo ∷ all) =
    let (p, q) = begun-remaining all in (omega (arith, p), omega (arith, q))

-- No addition is lost: however the steps of goroutines that add to a ConcurrentCounter interleave,
-- what the counter holds and what remains to be added make up the first value and all amounts,
-- modulo 2^64, at which an `int` wraps around.
pub concurrent_adds :
    {s : Shared} (v : ℕ) (all : List (List ℕ))
    → Steps (record { value = v; mu = false; goroutines = begun all }) s
    → (s.value + remaining s.goroutines) % 2 ^ 64 ≡ (v + total_of all) % 2 ^ 64
concurrent_adds v all steps =
    let (p, q) = begun-remaining all in
    (Steps-Fits (v + total_of all) steps
      (ap (λ n. (v + n) % 2 ^ 64) p, q, AllCurrent-idle v (begun all) q)).0
