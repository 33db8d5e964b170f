-- ===== src/Log/Stream/Whole.antt =====
-- A log line never overflows its buffer, and holds whole values only.
use distributed_instant_mess.Base.{
  ℕ, ◌^◌, ◌<◌, ◌≡◌, sym, ap, ◌∙◌, append_assoc, ◌⊎◌, true, false, List, [], ◌∷◌, ◌++◌, none, some,
  length, arith, length-append, inl, inr, append-nil,
}
use distributed_instant_mess.Log.FixedBuffer
use distributed_instant_mess.Log.FixedBuffer.{FixedBuffer, avail, IsWithin, append-lem}
use distributed_instant_mess.Log.Numbers.{convert, convert_hex, codes}
use distributed_instant_mess.Log.Numbers.RoundTrip.{convert-short}
use distributed_instant_mess.Log.Numbers.Hexadecimal.{convert_hex-short}
use distributed_instant_mess.Log.Stream.{
  Printf, Item, bool, integer, pointer, double, float, char, c_string, string, fmt, print_numeric,
  put, put_all, text_of, IsItem, max_numeric_size,
}

-- The bytes after a text was offered to a buffer.
record Offers (b c : FixedBuffer) (text : List ℕ) : Type 0 where
  within : IsWithin c
  size_same : c.size ≡ b.size
  whole : (c.written ≡ b.written) ⊎ (c.written ≡ b.written ++ text)

append-Offers :
    (b : FixedBuffer) (text : List ℕ)
    → length text < 2 ^ 31
    → IsWithin b
    → Offers b (FixedBuffer.append b text) text
append-Offers b text h v = ground (arith, append-lem b text h v)

module _ (p : Printf) where
  print_numeric-Offers :
      (b : FixedBuffer) (text : List ℕ)
      → length text < max_numeric_size
      → IsWithin b
      → Offers b (print_numeric p b text) text
  unfolding print_numeric avail FixedBuffer.add
  print_numeric-Offers b text h v = ground (arith, length-append b.written text)

  put-Offers :
      (b : FixedBuffer) (v : Item p) → IsItem p v → IsWithin b → Offers b (put p b v) (text_of p v)
  unfolding put text_of
  put-Offers b (bool true) h w = append-Offers b (codes "1") (omega arith) w
  put-Offers b (bool false) h w = append-Offers b (codes "0") (omega arith) w
  put-Offers b (integer m v) h w =
      print_numeric-Offers b (convert m v) (omega (arith, convert-short m v h.0 h.1)) w
  put-Offers b (pointer v) h w =
      print_numeric-Offers b (b'0' ∷ b'x' ∷ convert_hex v) (omega (arith, convert_hex-short v h)) w
  put-Offers b (double v) h w = print_numeric-Offers b (p.print v) (p.print_short v) w
  put-Offers b (float v) h w = print_numeric-Offers b (p.print v) (p.print_short v) w
  put-Offers b (char v) h w = append-Offers b (v ∷ []) (omega arith) w
  put-Offers b (c_string (some text)) h w = append-Offers b text h w
  put-Offers b (c_string none) h w = append-Offers b (codes "(null)") (omega arith) w
  put-Offers b (string text) h w = append-Offers b text h w
  put-Offers b (fmt text) h w = append-Offers b text (omega arith) w

  -- A line that holds some of the values, each of them whole and in order.
  pub data Keeps : List (Item p) → List ℕ → Type 0 where
    nil : Keeps [] []
    kept :
        (v : Item p) {vs : List (Item p)} {text : List ℕ}
        → Keeps vs text
        → Keeps (v ∷ vs) (text_of p v ++ text)
    left_out :
        (v : Item p) {vs : List (Item p)} {text : List ℕ} → Keeps vs text → Keeps (v ∷ vs) text

  one_more :
      (old new : List ℕ) (v : Item p) {vs : List (Item p)} {final : List ℕ}
      → (new ≡ old) ⊎ (new ≡ old ++ text_of p v)
      → (text : List ℕ) × (final ≡ new ++ text) × Keeps vs text
      → (text : List ℕ) × (final ≡ old ++ text) × Keeps (v ∷ vs) text
  one_more old new v (inl e) (text, f, k) = (text, cc, left_out v k)
  one_more old new v (inr e) (text, f, k) = (
    text_of p v ++ text,
    f ∙ ap (λ ys. ys ++ text) e ∙ append_assoc old (text_of p v) text,
    kept v k,
  )

  abbrev pub AllItems : List (Item p) → Type 0
  AllItems [] = Unit {0}
  AllItems (v ∷ vs) = IsItem p v × AllItems vs

  -- Whatever values are put into a line, in whatever order, as long as each text is shorter than 2 ^ 31
  -- bytes and each number is of its type: the buffer of the line does not overflow, and what it holds behind its old text is some of the values' texts, each whole and in order.
  pub put_all-Keeps :
      (b : FixedBuffer) (vs : List (Item p))
      → AllItems vs
      → IsWithin b
      → IsWithin (put_all p b vs)
        × ((text : List ℕ) × ((put_all p b vs).written ≡ b.written ++ text) × Keeps vs text)
  unfolding put_all
  put_all-Keeps b [] h w = (w, ([], sym (append-nil b.written), nil))
  put_all-Keeps b (v ∷ vs) h w =
      let o = put-Offers b v h.0 w in
      let (within, rest) = put_all-Keeps (put p b v) vs h.1 o.within in
      (within, one_more b.written (put p b v).written v o.whole rest)
