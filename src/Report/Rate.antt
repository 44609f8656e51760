-- ===== src/Report/Rate.antt =====
-- The alert rate (pkg/monny/report.go, calcAlertRate).
use monny.Base.{
  ℕ, ◌≤◌, ◌+◌, ◌≡◌, Bool, true, false, List, [], ◌∷◌, ◌++◌, length, length-append, if◌then◌else◌,
  arith, refl,
}
use monny.Base.Int.{ℤ, pos, ◌-ℤ◌, ltb_ℤ}
use monny.Command.{RuleMatch}
use monny.Report.{count_recent, calc_alert_rate}

-- the matches of the last `period`
unfoldable pub recent : ℤ → ℤ → List RuleMatch → List RuleMatch
recent now period [] = []
recent now period (m ∷ matches) =
    let rest = recent now period matches in if ltb_ℤ period (now -ℤ m.time) then rest else m ∷ rest

count_recent-eq-length :
    (now period : ℤ) (matches : List RuleMatch)
    → count_recent now period matches ≡ length (recent now period matches)
unfolding count_recent recent
count_recent-eq-length now period [] = refl
count_recent-eq-length now period (m ∷ matches) =
    ground (arith, count_recent-eq-length now period matches)

count_recent-append :
    (now period : ℤ) (xs ys : List RuleMatch)
    → count_recent now period (xs ++ ys) ≡ count_recent now period xs + count_recent now period ys
unfolding count_recent
count_recent-append now period [] ys = omega arith
count_recent-append now period (m ∷ xs) ys = ground (arith, count_recent-append now period xs ys)

count_recent-between :
    (now period : ℤ) (before matches behind : List RuleMatch)
    → count_recent now period matches ≤ count_recent now period (before ++ (matches ++ behind))
count_recent-between now period before matches behind = ground (
  arith,
  count_recent-append now period before (matches ++ behind),
  count_recent-append now period matches behind,
)

length-between :
    (before matches behind : List RuleMatch)
    → length matches ≤ length (before ++ (matches ++ behind))
length-between before matches behind =
    ground (arith, length-append before (matches ++ behind), length-append matches behind)

exceeds_mono :
    (m n : ℕ) (quantity : ℤ)
    → m ≤ n
    → (if ltb_ℤ (pos m) quantity then false else true) ≡ true
    → (if ltb_ℤ (pos n) quantity then false else true) ≡ true
exceeds_mono m n quantity le h = ground arith

-- More matches never end an alert: where the rate is exceeded, it is exceeded with any matches
-- added before and behind.
pub calc_alert_rate_mono :
    (now : ℤ) (before matches behind : List RuleMatch) (quantity period : ℤ)
    → calc_alert_rate now matches quantity period ≡ true
    → calc_alert_rate now (before ++ (matches ++ behind)) quantity period ≡ true
unfolding calc_alert_rate
calc_alert_rate_mono now before matches behind quantity period h =
    exceeds_mono _ _ quantity (kept (ltb_ℤ (pos 0) period)) h
  where
    kept :
        (b : Bool)
        → (if b then count_recent now period matches else length matches) ≤ (
            if b
            then count_recent now period (before ++ (matches ++ behind))
            else length (before ++ (matches ++ behind)))
    kept true = count_recent-between now period before matches behind
    kept false = length-between before matches behind
