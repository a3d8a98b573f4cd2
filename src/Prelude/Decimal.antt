-- ===== src/Prelude/Decimal.antt =====
-- What `%d` prints of a number that is not negative.
use Prim.Native.Nat.{ℕ, zero, suc, ◌/◌, ◌%◌, compare, Ordering, ◌+◌, ◌*◌, ◌-◌, ◌<◌}
use Prim.Native.Char.{Char, code}
use Prim.Native.String.{String, ◌++◌}
use Prim.Native.String.append
use native.Mathlib.Omega.{arith}
use mathlib.Core.Path.{◌≡◌, ◌∙◌, refl, sym, ap}
use mathlib.Core.Bool.{Bool, true, ◌&&◌}
use mathlib.Core.List.{List, [], ◌∷◌}

nth : List String → ℕ → String
nth [] n = ""
nth (s ∷ ss) zero = s
nth (s ∷ ss) (suc n) = nth ss n

digit : ℕ → String
unfolding nth
digit n = nth ("0" ∷ "1" ∷ "2" ∷ "3" ∷ "4" ∷ "5" ∷ "6" ∷ "7" ∷ "8" ∷ "9" ∷ []) n

-- A number has at most as many digits as its fuel.
decimal_fuel : ℕ → ℕ → String
decimal_fuel zero n = ""
decimal_fuel (suc fuel) n = elim (compare n 10) [
  | Ordering.lt ↦ digit n
  | _ ↦ decimal_fuel fuel (n / 10) ++ digit (n % 10)
]

unfoldable pub decimal : ℕ → String
unfolding decimal_fuel digit
decimal n = decimal_fuel (suc n) n

decimal_runs : decimal 2024 ++ decimal 0 ≡ "20240"
unfolding decimal
decimal_runs = refl

-- The number that a text of digits reads as, behind the number read so far.
value : ℕ → String → ℕ
value acc String.[] = acc
value acc (String.◌∷◌ c s) = value (acc * 10 + (code c - 48)) s

value-append : (acc : ℕ) (s t : String) → value acc (s ++ t) ≡ value (value acc s) t
unfolding value
value-append acc String.[] t = ap (value acc) (append.nil t)
value-append acc (String.◌∷◌ c s) t =
    ap (value acc) (append.cons c s t) ∙ value-append (acc * 10 + (code c - 48)) s t

-- The texts read as the numbers from k on.
abbrev ReadsFrom : ℕ → ℕ → List String → Type 0
ReadsFrom acc k [] = Unit
ReadsFrom acc k (s ∷ ss) = (value acc s ≡ acc * 10 + k) × ReadsFrom acc (suc k) ss

abbrev count : List String → ℕ
count [] = 0
count (s ∷ ss) = suc (count ss)

value-nth :
    (acc k n : ℕ) (ss : List String)
    → ReadsFrom acc k ss
    → n < count ss
    → value acc (nth ss n) ≡ acc * 10 + (k + n)
unfolding nth
value-nth acc k n [] r h = absurd (omega arith)
value-nth acc k zero (s ∷ ss) (r, _) h = omega (arith, r)
value-nth acc k (suc n) (s ∷ ss) (_, r) h = omega (arith, value-nth acc (suc k) n ss r)

value-digit : (acc n : ℕ) → n < 10 → value acc (digit n) ≡ acc * 10 + n
unfolding value digit
value-digit acc n h = omega (
  arith,
  value-nth acc 0 n ("0" ∷ "1" ∷ "2" ∷ "3" ∷ "4" ∷ "5" ∷ "6" ∷ "7" ∷ "8" ∷ "9" ∷ [])
      (refl, (refl, (refl, (refl, (refl, (refl, (refl, (refl, (refl, (refl, tt)))))))))) h,
)

value-decimal_fuel : (fuel n : ℕ) → n < fuel → value 0 (decimal_fuel fuel n) ≡ n
unfolding decimal_fuel
value-decimal_fuel zero n h = absurd (omega arith)
value-decimal_fuel (suc fuel) n h = ground (
  arith,
  value-digit 0 n,
  value-append 0 (decimal_fuel fuel (n / 10)) (digit (n % 10)),
  value-digit (value 0 (decimal_fuel fuel (n / 10))) (n % 10),
  value-decimal_fuel fuel (n / 10),
)

-- What is printed reads as the number it was.
value-decimal : (n : ℕ) → value 0 (decimal n) ≡ n
unfolding decimal
value-decimal n = value-decimal_fuel (suc n) n (omega arith)

pub decimal_injective : (m n : ℕ) → decimal m ≡ decimal n → m ≡ n
decimal_injective m n e = sym (value-decimal m) ∙ ap (value 0) e ∙ value-decimal n

-- Whether every character of a text passes.
unfoldable pub all_chars : (Char → Bool) → String → Bool
all_chars p String.[] = true
all_chars p (String.◌∷◌ c s) = p c && all_chars p s

pub all_chars-append :
    (p : Char → Bool) (s t : String) → all_chars p (s ++ t) ≡ (all_chars p s && all_chars p t)
unfolding all_chars
all_chars-append p String.[] t = ap (all_chars p) (append.nil t)
all_chars-append p (String.◌∷◌ c s) t =
    ap (all_chars p) (append.cons c s t) ∙ ground (arith, all_chars-append p s t)

abbrev pub ten_digits : List String
ten_digits = "0" ∷ "1" ∷ "2" ∷ "3" ∷ "4" ∷ "5" ∷ "6" ∷ "7" ∷ "8" ∷ "9" ∷ []

abbrev pub AllTexts : (Char → Bool) → List String → Type 0
AllTexts p [] = Unit
AllTexts p (s ∷ ss) = (all_chars p s ≡ true) × AllTexts p ss

all_chars-nth :
    (p : Char → Bool) (ss : List String) (n : ℕ) → AllTexts p ss → all_chars p (nth ss n) ≡ true
unfolding nth all_chars
all_chars-nth p [] n h = refl
all_chars-nth p (s ∷ ss) zero (h, _) = h
all_chars-nth p (s ∷ ss) (suc n) (_, h) = all_chars-nth p ss n h

all_chars-digit : (p : Char → Bool) (n : ℕ) → AllTexts p ten_digits → all_chars p (digit n) ≡ true
unfolding digit
all_chars-digit p n h = all_chars-nth p ten_digits n h

all_chars-decimal_fuel :
    (p : Char → Bool) (fuel n : ℕ)
    → AllTexts p ten_digits
    → all_chars p (decimal_fuel fuel n) ≡ true
unfolding decimal_fuel all_chars
all_chars-decimal_fuel p zero n h = refl
all_chars-decimal_fuel p (suc fuel) n h = ground (
  arith,
  all_chars-digit p n h,
  all_chars-append p (decimal_fuel fuel (n / 10)) (digit (n % 10)),
  all_chars-digit p (n % 10) h,
  all_chars-decimal_fuel p fuel (n / 10) h,
)

-- What holds of the ten digits holds of what is printed.
pub all_chars-decimal :
    (p : Char → Bool) (n : ℕ) → AllTexts p ten_digits → all_chars p (decimal n) ≡ true
unfolding decimal
all_chars-decimal p n h = all_chars-decimal_fuel p (suc n) n h
