-- ===== src/Log/Numbers/Hexadecimal.antt =====
-- `convertHex` prints the number: reading the text gives it back.
use native.Mathlib.Nat.{pow-suc}
use distributed_instant_mess.Base.{
  ℕ, zero, suc, ◌+◌, ◌-◌, ◌*◌, ◌/◌, ◌%◌, ◌^◌, ◌≤◌, ◌<◌, ◌≡◌, refl, ◌∙◌, subst, Bool, true, ◌&&◌,
  ◌||◌, List, [], ◌∷◌, ◌==◌, arith, length, get_or, leb, if◌then◌else◌, Bool-cases, inl, inr,
  ==_iff,
}
use distributed_instant_mess.Log.Numbers.{digits_hex, hex_loop, convert_hex}
use distributed_instant_mess.Log.Numbers.Decimal.{passes, passes_at, scaled}

-- The value of one character, upper case.
abbrev pub hex_digit : ℕ → ℕ
hex_digit c = if leb c b'9' then c - b'0' else c - b'A' + 10

abbrev pub is_hex : ℕ → Bool
is_hex c = leb b'0' c && leb c b'9' || leb b'A' c && leb c b'F'

abbrev pub value_of_hex : List ℕ → ℕ
value_of_hex [] = 0
value_of_hex (c ∷ text) = hex_digit c * 16 ^ length text + value_of_hex text

abbrev pub AreHex : List ℕ → Type 0
AreHex [] = Unit {0}
AreHex (c ∷ text) = (is_hex c ≡ true) × AreHex text

value_table : passes (λ x. hex_digit (get_or digits_hex x 0) == x) 16 ≡ true
unfolding passes digits_hex
value_table = refl

char_table : passes (λ x. is_hex (get_or digits_hex x 0)) 16 ≡ true
unfolding passes digits_hex
char_table = refl

hex_digit-lem : (x : ℕ) → x < 16 → hex_digit (get_or digits_hex x 0) ≡ x
hex_digit-lem x h =
    (==_iff _ _).0 (passes_at (λ x. hex_digit (get_or digits_hex x 0) == x) 16 x value_table h)

is_hex-lem : (x : ℕ) → x < 16 → is_hex (get_or digits_hex x 0) ≡ true
is_hex-lem x h = passes_at (λ x. is_hex (get_or digits_hex x 0)) 16 x char_table h

-- What the loop adds in front of a text.
record Prints (i : ℕ) (text out : List ℕ) : Type 0 where
  value : value_of_hex out ≡ i * 16 ^ length text + value_of_hex text
  digits_only : AreHex out

push_digit-Prints :
    (i : ℕ) (text : List ℕ) → i < 16 → AreHex text → Prints i text (get_or digits_hex i 0 ∷ text)
push_digit-Prints i text h d = record {
  value = rw (hex_digit-lem i h);
  digits_only = (is_hex-lem i h, d);
}

one_more :
    (i d : ℕ) (text : List ℕ)
    → value_of_hex (d ∷ text) ≡ (i % 16) * 16 ^ length text + value_of_hex text
    → (i / 16) * 16 ^ suc (length text) + value_of_hex (d ∷ text)
      ≡ i * 16 ^ length text + value_of_hex text
one_more i d text h =
    rw (h, pow-suc)
      (omega (arith, scaled i (i / 16 * 16 + i % 16) (16 ^ length text) (omega arith)))

hex_loop-Prints :
    (fuel i : ℕ) (text : List ℕ) → i < fuel → AreHex text → Prints i text (hex_loop fuel i text)
unfolding hex_loop
hex_loop-Prints zero i text h d = elim h [ ]
hex_loop-Prints (suc fuel) i text h d =
    let digit = get_or digits_hex (i % 16) 0 in
    let p = push_digit-Prints (i % 16) text (omega arith) d in
    elim (Bool-cases (i / 16 == 0)) [
      | inl last ↦ rw last (subst (λ k. Prints k text (digit ∷ text)) (ground arith) p)
      | inr more ↦ rw more (
          let q = hex_loop-Prints fuel (i / 16) (digit ∷ text) (ground arith) p.digits_only in
          record { value = q.value ∙ one_more i digit text p.value; digits_only = q.digits_only })
    ]

-- The text of `convertHex` has upper-case hexadecimal digits only, and stands for the number.
pub convert_hex-reads : (n : ℕ) → (value_of_hex (convert_hex n) ≡ n) × AreHex (convert_hex n)
unfolding convert_hex
convert_hex-reads n =
    let p = hex_loop-Prints (suc n) n [] (omega arith) tt in (p.value ∙ omega arith, p.digits_only)

length-hex_loop :
    (fuel i k : ℕ) (text : List ℕ)
    → i < 16 ^ suc k
    → i < fuel
    → length (hex_loop fuel i text) ≤ length text + suc k
unfolding hex_loop
length-hex_loop zero i k text h f = elim f [ ]
length-hex_loop (suc fuel) i zero text h f = ground arith
length-hex_loop (suc fuel) i (suc k) text h f =
    let digit = get_or digits_hex (i % 16) 0 in
    elim (Bool-cases (i / 16 == 0)) [
      | inl last ↦ rw last (omega arith)
      | inr more ↦ rw more (
          let shorter : i / 16 < 16 ^ suc k = omega (arith, pow-suc 16 (suc k)) in
          omega (arith, length-hex_loop fuel (i / 16) k (digit ∷ text) shorter (ground arith)))
    ]

-- A pointer has at most sixteen digits.
pub convert_hex-short : (n : ℕ) → n < 2 ^ 64 → length (convert_hex n) ≤ 16
unfolding convert_hex
convert_hex-short n h = length-hex_loop (suc n) n 15 [] h (omega arith)
