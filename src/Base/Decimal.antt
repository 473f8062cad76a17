-- ===== src/Base/Decimal.antt =====
-- Numbers as decimal digits: std::to_string, and the value that a text of digits has.
use stream_forge.Base.Strings.{Name}
use stream_forge.Base.Lists.{length}
use stream_forge.Base.Tests.{ltb, if◌then◌else◌, Bool-cases, ltb→ge}
use Prim.Native.Nat.{ℕ, zero, suc, ◌+◌, ◌-◌, ◌*◌, ◌/◌, ◌%◌, ◌<◌, ◌≤◌}
use mathlib.Core.Path.{◌≡◌, refl, ◌∙◌}
use mathlib.Core.Logic.{inl, inr}
use mathlib.Core.List.{[], ◌∷◌, ◌++◌}
use native.Mathlib.Omega.{arith}

-- At most this many digits.
unfoldable pub digits : ℕ → ℕ → Name
digits zero n = []
digits (suc k) n =
    let rest = digits k (n / 10) in if ltb n 10 then (48 + n) ∷ [] else rest ++ ((48 + n % 10) ∷ [])

-- A uint64_t has twenty digits at most.
abbrev pub to_string : ℕ → Name
to_string n = digits 20 n

unfoldable pub value : ℕ → Name → ℕ
value acc [] = acc
value acc (c ∷ cs) = value (acc * 10 + (c - 48)) cs

-- Zeros in front, up to a width.
abbrev pub zeros : ℕ → Name
zeros zero = []
zeros (suc n) = b'0' ∷ zeros n

abbrev pub pad : ℕ → Name → Name
pad width s = zeros (width - length s) ++ s

abbrev pub pow10 : ℕ → ℕ
pow10 zero = 1
pow10 (suc k) = 10 * pow10 k

pub value-append : (acc : ℕ) (xs ys : Name) → value acc (xs ++ ys) ≡ value (value acc xs) ys
unfolding value
value-append acc [] ys = refl
value-append acc (x ∷ xs) ys = value-append (acc * 10 + (x - 48)) xs ys

more_digits : (k n : ℕ) → n < pow10 (suc k) → 10 ≤ n → 0 < k
more_digits zero n h l = absurd (omega arith)
more_digits (suc k) n h l = omega arith

-- A number of at most k digits is read back.
pub value-digits : (k n : ℕ) → n < pow10 k → 0 < k → value 0 (digits k n) ≡ n
unfolding value digits
value-digits zero n h p = absurd (omega arith)
value-digits (suc k) n h p = elim (Bool-cases (ltb n 10)) [
  | inl e ↦ rw e (omega arith)
  | inr e ↦
      let l : 10 ≤ n = ltb→ge n 10 e in
      let q : 0 < k = more_digits k n h l in
      let r = value-digits k (n / 10) (omega arith) q in
      rw (e, value-append 0 (digits k (n / 10)) ((48 + n % 10) ∷ []), r) (omega arith)
]

value-zeros : (n : ℕ) (s : Name) → value 0 (zeros n ++ s) ≡ value 0 s
unfolding value
value-zeros zero s = refl
value-zeros (suc n) s = value-zeros n s

-- Neither its digits nor the zeros in front of them hide a number.
pub value-pad : (width n : ℕ) → n < pow10 20 → value 0 (pad width (to_string n)) ≡ n
value-pad width n h =
    value-zeros (width - length (to_string n)) (to_string n) ∙ value-digits 20 n h (omega arith)
