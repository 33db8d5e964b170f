-- ===== src/Log/Numbers.antt =====
-- framework/AsyncLog/src/LogStream.cc: how `convert` and `convertHex` print integers.
-- Both write the last digit first and reverse the text at the end. Here the characters written so
-- far are a list with the last one in front, so the list is the text after `std::reverse`.
pub mod Decimal
pub mod RoundTrip
pub mod Hexadecimal
use Prim.Native.Char.{code}
use Prim.Native.String.{String}
use distributed_instant_mess.Base.{
  ℕ, zero, suc, ◌+◌, ◌-◌, ◌*◌, ◌/◌, ◌%◌, Bool, true, false, List, [], ◌∷◌, ◌++◌, ◌==◌,
  if◌then◌else◌, get_or,
}

abbrev pub codes : String → List ℕ
codes String.[] = []
codes (String.◌∷◌ c s) = code c ∷ codes s

-- The hundred pairs "00" to "99".
pub digits : List ℕ
digits =
    codes "0001020304050607080910111213141516171819"
    ++ (codes "2021222324252627282930313233343536373839"
        ++ (codes "4041424344454647484950515253545556575859"
            ++ (codes "6061626364656667686970717273747576777879"
                ++ codes "8081828384858687888990919293949596979899")))

pub digits_hex : List ℕ
digits_hex = codes "0123456789ABCDEF"

-- One round of the loop: the low digit of the pair, then the high one.
pub push_pair : ℕ → List ℕ → List ℕ
push_pair lsd text = get_or digits (lsd * 2) 0 ∷ get_or digits (lsd * 2 + 1) 0 ∷ text

-- The loop, two digits a round. Each round divides by 100, so `i + 1` rounds of fuel are enough.
pub convert_loop : ℕ → ℕ → List ℕ → List ℕ
convert_loop zero i text = text
convert_loop (suc fuel) i text =
    let more = convert_loop fuel (i / 100) (push_pair (i % 100) text) in
    if i / 100 == 0 then push_pair (i % 100) text else more

-- `while (*(p - 1) == '0') p--`
pub strip_zeros : List ℕ → List ℕ
strip_zeros [] = []
strip_zeros (c ∷ text) = if c == b'0' then strip_zeros text else c ∷ text

-- An integer of the type `T`: `negsuc n` is -(n + 1).
pub data ℤ : Type 0 where
  pos : ℕ → ℤ
  negsuc : ℕ → ℤ

abbrev pub is_negative : ℤ → Bool
is_negative (pos n) = false
is_negative (negsuc n) = true

-- `static_cast<UnsignedT>(value)`, where `UnsignedT` counts up to `modulus`.
abbrev pub to_unsigned : ℕ → ℤ → ℕ
to_unsigned modulus (pos n) = n % modulus
to_unsigned modulus (negsuc n) = (modulus - suc n % modulus) % modulus

-- `i = 0 - i` for a negative value.
pub magnitude : ℕ → ℤ → ℕ
magnitude modulus value =
    let i = to_unsigned modulus value in
    if is_negative value then (modulus - i % modulus) % modulus else i

abbrev sign : ℤ → List ℕ → List ℕ
sign value text = if is_negative value then b'-' ∷ text else text

convert_nonzero : ℕ → ℤ → List ℕ
convert_nonzero modulus value =
    let i = magnitude modulus value in sign value (strip_zeros (convert_loop (suc i) i []))

abbrev is_zero : ℤ → Bool
is_zero (pos n) = n == 0
is_zero (negsuc n) = false

-- The text that `convert` leaves in the buffer, without the closing NUL.
pub convert : ℕ → ℤ → List ℕ
unfolding convert_nonzero
convert modulus value = if is_zero value then b'0' ∷ [] else convert_nonzero modulus value

-- The loop of `convertHex`.
pub hex_loop : ℕ → ℕ → List ℕ → List ℕ
hex_loop zero i text = text
hex_loop (suc fuel) i text =
    let digit = get_or digits_hex (i % 16) 0 in
    let more = hex_loop fuel (i / 16) (digit ∷ text) in if i / 16 == 0 then digit ∷ text else more

pub convert_hex : ℕ → List ℕ
convert_hex value = hex_loop (suc value) value []
