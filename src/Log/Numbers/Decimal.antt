-- ===== src/Log/Numbers/Decimal.antt =====
-- `convert` prints the number: reading the text gives it back.
use native.Mathlib.Nat.{pow-suc}
use distributed_instant_mess.Base.{
  ℕ, zero, suc, ◌+◌, ◌-◌, ◌*◌, ◌/◌, ◌%◌, ◌^◌, ◌<◌, ◌≡◌, ◌≢◌, refl, ◌∙◌, ap, subst, Bool, true, ◌&&◌,
  List, [], ◌∷◌, ◌==◌, arith, length, get_or, leb, Bool-cases, inl, inr, ==_iff,
}
use distributed_instant_mess.Log.Numbers.{digits, push_pair, convert_loop, strip_zeros}

-- The number that a text of digits stands for, the first digit the highest.
abbrev pub value_of : List ℕ → ℕ
value_of [] = 0
value_of (c ∷ text) = (c - b'0') * 10 ^ length text + value_of text

abbrev pub is_digit : ℕ → Bool
is_digit c = leb b'0' c && leb c b'9'

abbrev pub AreDigits : List ℕ → Type 0
AreDigits [] = Unit {0}
AreDigits (c ∷ text) = (is_digit c ≡ true) × AreDigits text

-- A test that passes at each index of a table.
unfoldable pub passes : (ℕ → Bool) → ℕ → Bool
passes test zero = true
passes test (suc i) = passes test i && test i

pub passes_at : (test : ℕ → Bool) (size i : ℕ) → passes test size ≡ true → i < size → test i ≡ true
unfolding passes
passes_at test zero i all inside = absurd (omega arith)
passes_at test (suc k) i all inside = ground (arith, passes_at test k i)

high_table : passes (λ x. get_or digits (x * 2) 0 == 48 + x / 10) 100 ≡ true
unfolding passes digits
high_table = refl

low_table : passes (λ x. get_or digits (x * 2 + 1) 0 == 48 + x % 10) 100 ≡ true
unfolding passes digits
low_table = refl

-- The table holds the two digits of each number below 100.
digits-high : (x : ℕ) → x < 100 → get_or digits (x * 2) 0 ≡ 48 + x / 10
digits-high x h =
    (==_iff _ _).0 (passes_at (λ x. get_or digits (x * 2) 0 == 48 + x / 10) 100 x high_table h)

digits-low : (x : ℕ) → x < 100 → get_or digits (x * 2 + 1) 0 ≡ 48 + x % 10
digits-low x h =
    (==_iff _ _).0 (passes_at (λ x. get_or digits (x * 2 + 1) 0 == 48 + x % 10) 100 x low_table h)

push_pair-lem :
    (x : ℕ) (text : List ℕ) → x < 100 → push_pair x text ≡ (48 + x / 10) ∷ (48 + x % 10) ∷ text
unfolding push_pair
push_pair-lem x text h = rw (digits-high x h, digits-low x h)

pub scaled : (a b p : ℕ) → a ≡ b → a * p ≡ b * p
scaled a b p e = ap (λ (t : ℕ). t * p) e

-- What the loop adds in front of a text.
pub record Prints (i : ℕ) (text out : List ℕ) : Type 0 where
  pub value : value_of out ≡ i * 10 ^ length text + value_of text
  pub digits_only : AreDigits out
  pub longer : length text < length out

push_pair-Prints :
    (i : ℕ) (text : List ℕ) → i < 100 → AreDigits text → Prints i text (push_pair i text)
push_pair-Prints i text h d = rw (push_pair-lem i text h) (record {
  value = rw pow-suc (
      omega (
        arith,
        scaled i (i / 10 * 10 + i % 10) (10 ^ length text) (omega arith),
        scaled (48 + i / 10 - 48) (i / 10) (10 ^ length text) (omega arith),
        scaled (48 + i % 10 - 48) (i % 10) (10 ^ length text) (omega arith),
      ));
  digits_only = ground arith;
  longer = omega arith;
})

length-push_pair : (x : ℕ) (text : List ℕ) → length (push_pair x text) ≡ suc (suc (length text))
unfolding push_pair
length-push_pair x text = refl

two_more :
    (i : ℕ) (text more : List ℕ)
    → value_of more ≡ (i % 100) * 10 ^ length text + value_of text
    → length more ≡ suc (suc (length text))
    → (i / 100) * 10 ^ length more + value_of more ≡ i * 10 ^ length text + value_of text
two_more i text more h e =
    rw (e, pow-suc, pow-suc)
      (omega (arith, scaled i (i / 100 * 100 + i % 100) (10 ^ length text) (omega arith)))

pub convert_loop-Prints :
    (fuel i : ℕ) (text : List ℕ)
    → i < fuel
    → AreDigits text
    → Prints i text (convert_loop fuel i text)
unfolding convert_loop
convert_loop-Prints zero i text h d = elim h [ ]
convert_loop-Prints (suc fuel) i text h d =
    let p = push_pair-Prints (i % 100) text (omega arith) d in
    elim (Bool-cases (i / 100 == 0)) [
      | inl last ↦ rw last (subst (λ k. Prints k text (push_pair (i % 100) text)) (ground arith) p)
      | inr more ↦ rw more (
          let q =
            convert_loop-Prints fuel (i / 100) (push_pair (i % 100) text) (ground arith)
              p.digits_only in
          record {
            value =
                q.value
                ∙ two_more i text (push_pair (i % 100) text) p.value
                    (length-push_pair (i % 100) text);
            digits_only = q.digits_only;
            longer = omega (arith, q.longer, p.longer);
          })
    ]

-- Stripping zeros in front keeps the number, and a number above 0 keeps a first digit that is not 0.
pub strip_zeros-value : (text : List ℕ) → value_of (strip_zeros text) ≡ value_of text
unfolding strip_zeros
strip_zeros-value [] = refl
strip_zeros-value (c ∷ text) = elim (Bool-cases (c == b'0')) [
  | inl zero_digit ↦ rw zero_digit (ground (arith, strip_zeros-value text))
  | inr other ↦ rw other refl
]

pub AreDigits-strip_zeros : (text : List ℕ) → AreDigits text → AreDigits (strip_zeros text)
unfolding strip_zeros
AreDigits-strip_zeros [] d = tt
AreDigits-strip_zeros (c ∷ text) d = ground (arith, AreDigits-strip_zeros text d.1)

-- The first digit is not 0.
abbrev pub IsLeading : List ℕ → Type 0
IsLeading [] = ⊥
IsLeading (c ∷ text) = c ≢ b'0'

pub IsLeading-strip_zeros : (text : List ℕ) → value_of text ≢ 0 → IsLeading (strip_zeros text)
unfolding strip_zeros
IsLeading-strip_zeros [] h = absurd (h refl)
IsLeading-strip_zeros (c ∷ text) h = elim (Bool-cases (c == b'0')) [
  | inl zero_digit ↦ rw zero_digit (
      IsLeading-strip_zeros text
        (λ z. h (omega (arith, scaled (c - b'0') 0 (10 ^ length text) (ground arith)))))
  | inr other ↦ rw other (ground arith)
]
