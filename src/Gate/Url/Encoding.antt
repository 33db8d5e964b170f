-- ===== src/Gate/Url/Encoding.antt =====
-- Decoding undoes encoding, and an encoded text has no character with a meaning of its own.
use distributed_instant_mess.Base.{
  ℕ, ◌/◌, ◌%◌, ◌<◌, ◌≡◌, refl, sym, ap, inl, inr, true, false, some, List, [], ◌∷◌, arith, ◌==◌,
  Bool-cases, ==_iff,
}
use distributed_instant_mess.Gate.Url.{
  to_hex, from_hex, is_plain, url_encode, push, plain_char, url_decode,
}

from-to_hex : (d : ℕ) → d < 16 → from_hex (to_hex d) ≡ some d
unfolding to_hex from_hex
from-to_hex d h = ground arith

-- A character that is not `%` is decoded by itself.
url_decode-plain :
    (c : ℕ) (s : List ℕ)
    → (c == b'%') ≡ false
    → url_decode (c ∷ s) ≡ push (plain_char c) (url_decode s)
unfolding url_decode
url_decode-plain c [] h = rw h refl
url_decode-plain c (d ∷ []) h = rw h refl
url_decode-plain c (d ∷ e ∷ s) h = rw h refl

-- A byte that is encoded by its two digits.
url_decode-hex :
    (c : ℕ) (s : List ℕ)
    → c < 256
    → url_decode (b'%' ∷ to_hex (c / 16) ∷ to_hex (c % 16) ∷ s) ≡ push c (url_decode s)
unfolding url_decode
url_decode-hex c s h =
    rw (from-to_hex (c / 16) (omega arith), from-to_hex (c % 16) (omega arith))
      (ap (λ k. push k (url_decode s)) (omega arith))

-- The bytes of a text.
abbrev pub AreBytes : List ℕ → Type 0
AreBytes [] = Unit {0}
AreBytes (c ∷ s) = (c < 256) × AreBytes s

-- A character that stays as it is has no meaning of its own.
pub plain_only : (c : ℕ) → is_plain c ≡ true → ((c == b'%') ≡ false) × ((c == b'+') ≡ false)
unfolding is_plain
plain_only c h = ground arith

pub to_hex-plain : (x : ℕ) → x < 16 → is_plain (to_hex x) ≡ true
unfolding is_plain to_hex
to_hex-plain x h = ground arith

-- Every text comes back from its encoding.
pub url_decode-encode : (s : List ℕ) → AreBytes s → url_decode (url_encode s) ≡ some s
unfolding url_encode
url_decode-encode [] h = unfold url_decode in refl
url_decode-encode (c ∷ s) h = elim (Bool-cases (is_plain c)) [
  | inl plain ↦
      let (a, b) = plain_only c plain in
      rw (plain, url_decode-plain c (url_encode s) a, url_decode-encode s h.1, b) refl
  | inr other ↦ elim (Bool-cases (c == b' ')) [
    | inl space ↦
        let is_space : c ≡ b' ' = (==_iff c b' ').0 space in
        rw (other, space, url_decode-plain b'+' (url_encode s) refl, url_decode-encode s h.1)
          (ap (λ k. some (k ∷ s)) (sym is_space))
    | inr special ↦
        rw (other, special, url_decode-hex c (url_encode s) h.0, url_decode-encode s h.1) refl
  ]
]
