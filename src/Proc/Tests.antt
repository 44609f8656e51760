-- ===== src/Proc/Tests.antt =====
-- The theorems about the queue of log lines (pkg/monny/proc) at concrete lines.
use monny.Base.{ℕ, ◌≡◌, List, [], ◌∷◌, returned, panic, arith}
use monny.Proc.Queue.{new_queue}
use monny.Proc.Queue.Recent.{add_all, add_all-last, add_all-panics}

abbrev lines : List ℕ
lines = 1 ∷ 2 ∷ 3 ∷ 4 ∷ []

last_lines : add_all lines (new_queue 3) ≡ returned (record { q = 2 ∷ 3 ∷ 4 ∷ []; capacity = 3 })
last_lines = add_all-last 3 lines (omega arith)

one_place_panics : add_all lines (new_queue 1) ≡ panic
one_place_panics = add_all-panics 1 1 2 (3 ∷ 4 ∷ []) (omega arith)
