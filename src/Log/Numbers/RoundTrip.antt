-- ===== src/Log/Numbers/RoundTrip.antt =====
-- The text of `convert` is the usual one, reads back as the number, and fits the room kept for it.
use native.Mathlib.Nat.{mod-eq_of_lt, mul-le-mul_right, pow-le-pow_right}
use native.Mathlib.Decide.{dec_lt}
use distributed_instant_mess.Base.{
  ℕ, zero, suc, ◌-◌, ◌*◌, ◌%◌, ◌^◌, ◌≤◌, ◌<◌, ◌≡◌, ◌≢◌, refl, sym, ◌∙◌, ap, false, List, [], ◌∷◌,
  ◌==◌, arith, length,
}
use distributed_instant_mess.Log.Numbers.{
  convert_loop, strip_zeros, ℤ, pos, negsuc, magnitude, convert, convert_nonzero,
}
use distributed_instant_mess.Log.Numbers.Decimal.{
  value_of, AreDigits, IsLeading, convert_loop-Prints, strip_zeros-value, AreDigits-strip_zeros,
  IsLeading-strip_zeros,
}

-- The values of a type whose unsigned twin counts up to `modulus`.
abbrev pub InRange : ℕ → ℤ → Type 0
InRange modulus (pos n) = n < modulus
InRange modulus (negsuc n) = suc n < modulus

abbrev pub abs : ℤ → ℕ
abs (pos n) = n
abs (negsuc n) = suc n

magnitude-abs : (modulus : ℕ) (v : ℤ) → InRange modulus v → magnitude modulus v ≡ abs v
unfolding magnitude
magnitude-abs m (pos n) h = mod-eq_of_lt h
magnitude-abs m (negsuc n) h =
    let a : suc n % m ≡ suc n = mod-eq_of_lt h in
    let b : (m - suc n) % m ≡ m - suc n = mod-eq_of_lt (omega arith) in
    let d : m - (m - suc n) ≡ suc n = omega arith in rw (a, b, b, d) a

-- The digits that `convert` prints for a number above 0.
abbrev plain : ℕ → List ℕ
plain n = strip_zeros (convert_loop (suc n) n [])

pub record IsPlain (n : ℕ) (text : List ℕ) : Type 0 where
  pub value : value_of text ≡ n
  pub digits_only : AreDigits text
  pub leading : IsLeading text

plain-IsPlain : (n : ℕ) → n ≢ 0 → IsPlain n (plain n)
plain-IsPlain n h =
    let p = convert_loop-Prints (suc n) n [] (omega arith) tt in
    let v : value_of (convert_loop (suc n) n []) ≡ n = p.value ∙ omega arith in
    record {
      value = strip_zeros-value (convert_loop (suc n) n []) ∙ v;
      digits_only = AreDigits-strip_zeros (convert_loop (suc n) n []) p.digits_only;
      leading = IsLeading-strip_zeros (convert_loop (suc n) n []) (λ z. h (sym v ∙ z));
    }

wider : (m : ℕ) (v : ℤ) → m ≤ 2 ^ 64 → InRange m v → InRange (2 ^ 64) v
wider m (pos n) small h = omega arith
wider m (negsuc n) small h = omega arith

-- The usual text of an integer.
abbrev pub IsText : ℤ → List ℕ → Type 0
IsText (pos zero) text = text ≡ b'0' ∷ []
IsText (pos (suc n)) text = IsPlain (suc n) text
IsText (negsuc n) text = (digits : List ℕ) × (text ≡ b'-' ∷ digits) × IsPlain (suc n) digits

-- `convert` prints every value of its type as a sign, if it is negative, and its decimal digits, with
-- no leading 0. This holds of the lowest value too, whose negation does not fit the type.
pub convert-IsText : (modulus : ℕ) (v : ℤ) → InRange modulus v → IsText v (convert modulus v)
unfolding convert convert_nonzero
convert-IsText m (pos zero) h = refl
convert-IsText m (pos (suc n)) h =
    let not_zero : (suc n == 0) ≡ false = ground arith in
    rw (not_zero, magnitude-abs m (pos (suc n)) h) (plain-IsPlain (suc n) (omega arith))
convert-IsText m (negsuc n) h =
    (plain (suc n), rw (magnitude-abs m (negsuc n) h), plain-IsPlain (suc n) (omega arith))

-- A text with a first digit other than 0 stands for at least the power of its length.
pow-le-value :
    (text : List ℕ)
    → AreDigits text
    → IsLeading text
    → (k : ℕ) → length text ≡ suc k
    → 10 ^ k ≤ value_of text
pow-le-value [] d l k e = elim l [ ]
pow-le-value (c ∷ text) d l k e =
    let one_digit : 1 * 10 ^ k ≤ (c - 48) * 10 ^ k =
      mul-le-mul_right {m = 1} {n = c - 48} (10 ^ k) (ground (arith, d.0)) in
    let same : length text ≡ k = omega arith in rw same (omega arith)

IsPlain-short : (n : ℕ) (text : List ℕ) → n < 2 ^ 64 → IsPlain n text → length text ≤ 20
IsPlain-short n text h p = elim (dec_lt 20 (length text)) [
  | yes long ↦ absurd (
      let power = pow-le-value text p.digits_only p.leading (length text - 1) (omega arith) in
      let big : 10 ^ 20 ≤ 10 ^ (length text - 1) =
        pow-le-pow_right {n = 10} (omega arith) {i = 20} {j = length text - 1} (omega arith) in
      omega (arith, power, big, p.value))
  | no short ↦ omega arith
]

IsText-short : (v : ℤ) (text : List ℕ) → InRange (2 ^ 64) v → IsText v text → length text ≤ 21
IsText-short (pos zero) text h t = omega (arith, ap length t)
IsText-short (pos (suc n)) text h t = omega (arith, IsPlain-short (suc n) text h t)
IsText-short (negsuc n) text h (digits, e, t) =
    omega (arith, ap length e, IsPlain-short (suc n) digits h t)

-- No integer of 64 bits or fewer needs more than 21 characters, sign included.
pub convert-short :
    (modulus : ℕ) (v : ℤ) → modulus ≤ 2 ^ 64 → InRange modulus v → length (convert modulus v) ≤ 21
convert-short m v small h = IsText-short v (convert m v) (wider m v small h) (convert-IsText m v h)
