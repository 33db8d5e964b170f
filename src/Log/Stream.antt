-- ===== src/Log/Stream.antt =====
-- framework/AsyncLog/src/include/LogStream.h and framework/AsyncLog/src/LogStream.cc: the operators
-- that put values into the buffer of one log line.
pub mod Whole
use distributed_instant_mess.Base.{
  ℕ, ◌+◌, ◌*◌, ◌^◌, ◌≤◌, ◌<◌, ◌≡◌, refl, Bool, true, false, List, [], ◌∷◌, ◌++◌, Option, none, some,
  ltb, leb, if◌then◌else◌, length, arith, length-append, Bool-cases, inl, inr, append-nil,
}
use distributed_instant_mess.Log.FixedBuffer
use distributed_instant_mess.Log.FixedBuffer.{FixedBuffer, avail, IsWithin}
use distributed_instant_mess.Log.Numbers.{ℤ, convert, convert_hex, codes}
use distributed_instant_mess.Log.Numbers.RoundTrip.{InRange, convert-short}

abbrev pub small_buffer : ℕ
small_buffer = 4000

abbrev pub max_numeric_size : ℕ
max_numeric_size = 32

-- What the code relies on in `snprintf` with "%.12g": the text of a `double` is short.
pub record Printf : Type 1 where
  pub Double : Type 0
  pub print : Double → List ℕ
  pub print_short : (v : Double) → length (print v) < max_numeric_size

module _ (p : Printf) where
  open p use {Double, print}

  -- The arguments of `operator<<`. An integer comes with the range of its type; a `Fmt` with its
  -- text, which is at most 31 characters.
  pub data Item : Type 0 where
    bool : Bool → Item
    integer : ℕ → ℤ → Item
    pointer : ℕ → Item
    double : Double → Item
    float : Double → Item
    char : ℕ → Item
    c_string : Option (List ℕ) → Item
    string : List ℕ → Item
    fmt : List ℕ → Item

  -- Text that is printed in place, if there is room for the longest.
  print_numeric : FixedBuffer → List ℕ → FixedBuffer
  print_numeric b text = if leb max_numeric_size (avail b) then FixedBuffer.add b text else b

  pub put : FixedBuffer → Item → FixedBuffer
  put b (bool v) = FixedBuffer.append b (if v then codes "1" else codes "0")
  put b (integer modulus v) = print_numeric b (convert modulus v)
  put b (pointer v) = print_numeric b (b'0' ∷ b'x' ∷ convert_hex v)
  put b (double v) = print_numeric b (print v)
  put b (float v) = print_numeric b (print v)
  put b (char v) = FixedBuffer.append b (v ∷ [])
  put b (c_string (some text)) = FixedBuffer.append b text
  put b (c_string none) = FixedBuffer.append b (codes "(null)")
  put b (string text) = FixedBuffer.append b text
  put b (fmt text) = FixedBuffer.append b text

  pub put_all : FixedBuffer → List Item → FixedBuffer
  put_all b [] = b
  put_all b (v ∷ vs) = put_all (put b v) vs

  -- What an operator prints, by itself.
  pub text_of : Item → List ℕ
  text_of (bool v) = if v then codes "1" else codes "0"
  text_of (integer modulus v) = convert modulus v
  text_of (pointer v) = b'0' ∷ b'x' ∷ convert_hex v
  text_of (double v) = print v
  text_of (float v) = print v
  text_of (char v) = v ∷ []
  text_of (c_string (some text)) = text
  text_of (c_string none) = codes "(null)"
  text_of (string text) = text
  text_of (fmt text) = text

  -- The values of the C++ types: 64 bits at most, and strings below 2 GB.
  abbrev pub IsItem : Item → Type 0
  IsItem (integer modulus v) = (modulus ≤ 2 ^ 64) × InRange modulus v
  IsItem (pointer v) = v < 2 ^ 64
  IsItem (c_string (some text)) = length text < 2 ^ 31
  IsItem (string text) = length text < 2 ^ 31
  IsItem (fmt text) = length text < max_numeric_size
  IsItem _ = Unit {0}
