-- ===== src/Base/Strconv.antt =====
-- Go's `strconv.Itoa` and `strconv.Atoi` for a 64-bit `int`, over native texts.
use Prim.Native.Char.{Char, code}
use Prim.Native.String.{String}
use monny.Base.{
  ℕ, zero, suc, ◌+◌, ◌-◌, ◌*◌, ◌/◌, ◌%◌, ◌^◌, ◌≤◌, ◌<◌, ◌==◌, ◌≡◌, refl, ap, ◌∙◌, ◌&&◌, ltb, leb,
  Option, none, some, arith, if◌then◌else◌,
}
use mathlib.Core.Path.{subst, sym}
use native.Mathlib.Decide.{dec_lt}
use monny.Base.Int.{ℤ, pos, negsuc}

-- the digit of a number below ten
digit : ℕ → Char
digit zero = "0"
digit (suc zero) = "1"
digit (suc (suc zero)) = "2"
digit (suc (suc (suc zero))) = "3"
digit (suc (suc (suc (suc zero)))) = "4"
digit (suc (suc (suc (suc (suc zero))))) = "5"
digit (suc (suc (suc (suc (suc (suc zero)))))) = "6"
digit (suc (suc (suc (suc (suc (suc (suc zero))))))) = "7"
digit (suc (suc (suc (suc (suc (suc (suc (suc zero)))))))) = "8"
digit (suc (suc (suc (suc (suc (suc (suc (suc (suc n))))))))) = "9"

-- the decimal of `n` in front of a text; fuel above `n` is enough
decimal : ℕ → ℕ → String → String
decimal zero n s = s
decimal (suc f) n s =
    let more = decimal f (n / 10) (String.◌∷◌ (digit (n % 10)) s) in
    if ltb n 10 then String.◌∷◌ (digit n) s else more

-- the decimal of an integer in front of a text
unfoldable pub itoa_onto : ℤ → String → String
unfolding decimal digit
itoa_onto (pos n) s = decimal (suc n) n s
itoa_onto (negsuc n) s = String.◌∷◌ "-" (decimal (suc (suc n)) (suc n) s)

-- `strconv.Itoa`
unfoldable pub itoa : ℤ → String
unfolding itoa_onto
itoa z = itoa_onto z ""

unfoldable pub parse_digits : ℕ → String → Option ℕ
parse_digits acc String.[] = some acc
parse_digits acc (String.◌∷◌ c s) =
    let rest = parse_digits (10 * acc + (code c - b'0')) s in
    if leb b'0' (code c) && leb (code c) b'9' then rest else none

unfoldable pub parse_magnitude : String → Option ℕ
unfolding parse_digits
parse_magnitude String.[] = none
parse_magnitude (String.◌∷◌ c s) = parse_digits 0 (String.◌∷◌ c s)

-- a number behind its sign; an error out of the range of `int`
abbrev positive : Option ℕ → Option ℤ
positive none = none
positive (some n) = if ltb n (2 ^ 63) then some (pos n) else none

abbrev negative : Option ℕ → Option ℤ
negative none = none
negative (some zero) = some (pos 0)
negative (some (suc n)) = if ltb n (2 ^ 63) then some (negsuc n) else none

-- `strconv.Atoi`; `none` is an error
unfoldable pub atoi : String → Option ℤ
unfolding parse_magnitude
atoi String.[] = none
atoi (String.◌∷◌ c s) =
    if code c == b'-'
    then negative (parse_magnitude s)
    else (if code c == b'+'
        then positive (parse_magnitude s)
        else positive (parse_magnitude (String.◌∷◌ c s)))

-- what an `int` holds
abbrev pub IsInt64 : ℤ → Type 0
IsInt64 (pos n) = n < 2 ^ 63
IsInt64 (negsuc n) = n < 2 ^ 63

-- the code of a digit
code-digit : (d : ℕ) → d < 10 → code (digit d) ≡ b'0' + d
unfolding digit
code-digit zero h = refl
code-digit (suc zero) h = refl
code-digit (suc (suc zero)) h = refl
code-digit (suc (suc (suc zero))) h = refl
code-digit (suc (suc (suc (suc zero)))) h = refl
code-digit (suc (suc (suc (suc (suc zero))))) h = refl
code-digit (suc (suc (suc (suc (suc (suc zero)))))) h = refl
code-digit (suc (suc (suc (suc (suc (suc (suc zero))))))) h = refl
code-digit (suc (suc (suc (suc (suc (suc (suc (suc zero)))))))) h = refl
code-digit (suc (suc (suc (suc (suc (suc (suc (suc (suc zero))))))))) h = refl
code-digit (suc (suc (suc (suc (suc (suc (suc (suc (suc (suc n)))))))))) h = absurd (omega arith)

-- One digit shifts what was read. `digit` stays shut.
parse_digits-digit :
    (acc d : ℕ) (s : String)
    → d < 10
    → parse_digits acc (String.◌∷◌ (digit d) s) ≡ parse_digits (10 * acc + d) s
unfolding parse_digits
parse_digits-digit acc d s h =
    let digits : (10 * acc + (code (digit d) - 48)) ≡ 10 * acc + d =
      omega (arith, code-digit d h) in
    ground (arith, code-digit d h, digits)

decimal-small : (f n : ℕ) (s : String) → n < 10 → decimal (suc f) n s ≡ String.◌∷◌ (digit n) s
unfolding decimal
decimal-small f n s h = ground arith

decimal-large :
    (f n : ℕ) (s : String)
    → 10 ≤ n
    → decimal (suc f) n s ≡ decimal f (n / 10) (String.◌∷◌ (digit (n % 10)) s)
unfolding decimal
decimal-large f n s h = ground arith

parse_digits-decimal :
    (f n : ℕ) (s : String) → n < f → parse_digits 0 (decimal f n s) ≡ parse_digits n s
parse_digits-decimal zero n s h = elim h [ ]
parse_digits-decimal (suc f) n s h = elim (dec_lt n 10) [
  | yes small ↦
      let whole : 10 * 0 + n ≡ n = omega arith in
      ap (parse_digits 0) (decimal-small f n s small)
      ∙ (parse_digits-digit 0 n s small ∙ ap (λ k. parse_digits k s) whole)
  | no large ↦
      let whole : 10 * (n / 10) + n % 10 ≡ n = omega arith in
      ap (parse_digits 0) (decimal-large f n s (omega arith))
      ∙ (parse_digits-decimal f (n / 10) (String.◌∷◌ (digit (n % 10)) s) (omega arith)
          ∙ (parse_digits-digit (n / 10) (n % 10) s (omega arith)
              ∙ ap (λ k. parse_digits k s) whole))
]

-- A text that begins with a digit.
abbrev Numeral : String → Type 0
Numeral t = (c : Char) × (s : String) × (t ≡ String.◌∷◌ c s) × (b'0' ≤ code c) × (code c ≤ b'9')

decimal-Numeral : (f n : ℕ) (s : String) → n < f → Numeral (decimal f n s)
decimal-Numeral zero n s h = elim h [ ]
decimal-Numeral (suc f) n s h = elim (dec_lt n 10) [
  | yes small ↦ (
    digit n,
    s,
    decimal-small f n s small,
    omega (arith, code-digit n small),
    omega (arith, code-digit n small),
  )
  | no large ↦
      let rest = decimal-Numeral f (n / 10) (String.◌∷◌ (digit (n % 10)) s) (omega arith) in
      (rest.0, rest.1, decimal-large f n s (omega arith) ∙ rest.2, rest.3, rest.4)
]

parse_magnitude-Numeral : (t : String) → Numeral t → parse_magnitude t ≡ parse_digits 0 t
unfolding parse_magnitude
parse_magnitude-Numeral t (c, s, e, lo, hi) =
    subst (λ u. parse_magnitude u ≡ parse_digits 0 u) (sym e) refl

parse_magnitude-decimal : (f n : ℕ) → n < f → parse_magnitude (decimal f n "") ≡ some n
unfolding parse_digits
parse_magnitude-decimal f n h =
    parse_magnitude-Numeral (decimal f n "") (decimal-Numeral f n "" h)
    ∙ parse_digits-decimal f n "" h

-- a text that does not begin with a sign
atoi-unsigned :
    (c : Char) (s : String)
    → b'0' ≤ code c
    → atoi (String.◌∷◌ c s) ≡ positive (parse_magnitude (String.◌∷◌ c s))
unfolding atoi
atoi-unsigned c s lo = ground arith

atoi-Numeral : (t : String) → Numeral t → atoi t ≡ positive (parse_magnitude t)
atoi-Numeral t (c, s, e, lo, hi) =
    subst (λ u. atoi u ≡ positive (parse_magnitude u)) (sym e) (atoi-unsigned c s lo)

atoi-minus : (s : String) → atoi (String.◌∷◌ "-" s) ≡ negative (parse_magnitude s)
unfolding atoi
atoi-minus s = refl

-- Every `int` is read back from its decimal.
pub atoi-itoa : (z : ℤ) → IsInt64 z → atoi (itoa z) ≡ some z
unfolding itoa
atoi-itoa (pos n) h =
    atoi-Numeral (decimal (suc n) n "") (decimal-Numeral (suc n) n "" (omega arith))
    ∙ (ap positive (parse_magnitude-decimal (suc n) n (omega arith)) ∙ ground arith)
atoi-itoa (negsuc n) h =
    atoi-minus (decimal (suc (suc n)) (suc n) "")
    ∙ (ap negative (parse_magnitude-decimal (suc (suc n)) (suc n) (omega arith)) ∙ ground arith)

-- the text in front of the last character, and that character's code
unfoldable pub strip_last : String → Option (String × ℕ)
strip_last String.[] = none
strip_last (String.◌∷◌ c s) = elim (strip_last s) [
  | none ↦ some (String.[], code c)
  | some (front, last) ↦ some (String.◌∷◌ c front, last)
]

strip_last-cons :
    (c : Char) (s front : String) (last : ℕ)
    → strip_last s ≡ some (front, last)
    → strip_last (String.◌∷◌ c s) ≡ some (String.◌∷◌ c front, last)
unfolding strip_last
strip_last-cons c s front last h = rw h

strip_last-decimal :
    (f n : ℕ) (s front : String) (last : ℕ)
    → strip_last s ≡ some (front, last)
    → strip_last (decimal f n s) ≡ some (decimal f n front, last)
strip_last-decimal zero n s front last h = unfold decimal in h
strip_last-decimal (suc f) n s front last h = elim (dec_lt n 10) [
  | yes small ↦
      ap strip_last (decimal-small f n s small)
      ∙ (strip_last-cons (digit n) s front last h
          ∙ ap (λ t. some (t, last)) (sym (decimal-small f n front small)))
  | no large ↦
      let d : Char = digit (n % 10) in
      ap strip_last (decimal-large f n s (omega arith))
      ∙ (strip_last-decimal f (n / 10) (String.◌∷◌ d s) (String.◌∷◌ d front) last
            (strip_last-cons d s front last h)
          ∙ ap (λ t. some (t, last)) (sym (decimal-large f n front (omega arith))))
]

strip_last-single : (c : Char) → strip_last (String.◌∷◌ c String.[]) ≡ some (String.[], code c)
unfolding strip_last
strip_last-single c = refl

-- What stands behind an integer comes off its end.
pub strip_last-itoa_onto :
    (z : ℤ) (c : Char) → strip_last (itoa_onto z (String.◌∷◌ c String.[])) ≡ some (itoa z, code c)
unfolding itoa
strip_last-itoa_onto (pos n) c =
    strip_last-decimal (suc n) n (String.◌∷◌ c String.[]) "" (code c) (strip_last-single c)
strip_last-itoa_onto (negsuc n) c =
    strip_last-cons "-" (decimal (suc (suc n)) (suc n) (String.◌∷◌ c String.[]))
      (decimal (suc (suc n)) (suc n) "") (code c)
      (strip_last-decimal (suc (suc n)) (suc n) (String.◌∷◌ c String.[]) "" (code c)
        (strip_last-single c))
