-- ===== src/Base/Slice.antt =====
-- Arrays of bytes: windows, overwriting in place, and `resize` of a `std::vector`.
use distributed_instant_mess.Base.Lists.{
  length, take, drop, replicate, length-append, length-take, length-drop, length-replicate,
  take-nil, suc-add, take-take,
}
use Prim.Native.Nat.{ℕ, zero, suc, ◌+◌, ◌-◌, ◌≤◌}
use mathlib.Core.Path.{◌≡◌, refl, ap}
use mathlib.Core.List.{List, [], ◌∷◌, ◌++◌}
use native.Mathlib.Omega.{arith}
use distributed_instant_mess.Base.Tests.{leb, if◌then◌else◌}

-- The `n` bytes from index `i` on.
abbrev pub slice : List ℕ → ℕ → ℕ → List ℕ
slice buf i n = take n (drop i buf)

-- `std::copy` to the start of an array. What lies behind the end of it is not written.
abbrev pub put_front : List ℕ → List ℕ → List ℕ
put_front buf [] = buf
put_front [] (x ∷ xs) = []
put_front (y ∷ buf) (x ∷ xs) = x ∷ put_front buf xs

-- `std::copy` to index `i`.
abbrev pub overwrite : List ℕ → ℕ → List ℕ → List ℕ
overwrite buf zero xs = put_front buf xs
overwrite [] (suc i) xs = []
overwrite (y ∷ buf) (suc i) xs = y ∷ overwrite buf i xs

-- `vector::resize`: new elements are 0.
abbrev pub resize : List ℕ → ℕ → List ℕ
resize buf n = if leb n (length buf) then take n buf else (buf ++ replicate (n - length buf) 0)

pub length-put_front : (buf xs : List ℕ) → length (put_front buf xs) ≡ length buf
length-put_front buf [] = refl
length-put_front [] (x ∷ xs) = refl
length-put_front (y ∷ buf) (x ∷ xs) = ap suc (length-put_front buf xs)

pub length-overwrite :
    (buf : List ℕ) (i : ℕ) (xs : List ℕ) → length (overwrite buf i xs) ≡ length buf
length-overwrite buf zero xs = length-put_front buf xs
length-overwrite [] (suc i) xs = refl
length-overwrite (y ∷ buf) (suc i) xs = ap suc (length-overwrite buf i xs)

pub length-resize : (buf : List ℕ) (n : ℕ) → length (resize buf n) ≡ n
length-resize buf n = ground (
  arith,
  length-take n buf,
  length-append buf (replicate (n - length buf) 0),
  length-replicate {A = ℕ} (n - length buf) 0,
)

pub length-slice : (buf : List ℕ) (i n : ℕ) → i + n ≤ length buf → length (slice buf i n) ≡ n
length-slice buf i n h = omega (arith, length-take n (drop i buf), length-drop i buf)

take-put_front :
    (buf xs : List ℕ) → length xs ≤ length buf → take (length xs) (put_front buf xs) ≡ xs
take-put_front buf [] h = refl
take-put_front [] (x ∷ xs) h = elim h [ ]
take-put_front (y ∷ buf) (x ∷ xs) h = ap (◌∷◌ x) (take-put_front buf xs (omega arith))

take-overwrite :
    (buf : List ℕ) (n : ℕ) (xs : List ℕ)
    → n + length xs ≤ length buf
    → take (n + length xs) (overwrite buf n xs) ≡ take n buf ++ xs
take-overwrite buf zero xs h = ground (arith, take-put_front buf xs)
take-overwrite [] (suc n) xs h = absurd (omega arith)
take-overwrite (y ∷ buf) (suc n) xs h =
    rw (suc-add n (length xs)) (ap (◌∷◌ y) (take-overwrite buf n xs (omega arith)))

-- Writing just behind a window extends it.
pub slice-overwrite :
    (buf : List ℕ) (i n : ℕ) (xs : List ℕ)
    → i + n + length xs ≤ length buf
    → slice (overwrite buf (i + n) xs) i (n + length xs) ≡ slice buf i n ++ xs
slice-overwrite buf zero n xs h = ground (arith, take-overwrite buf n xs)
slice-overwrite [] (suc i) n xs h = absurd (omega arith)
slice-overwrite (y ∷ buf) (suc i) n xs h =
    rw (suc-add i n) (slice-overwrite buf i n xs (omega arith))

take-append_le : (n : ℕ) (xs ys : List ℕ) → n ≤ length xs → take n (xs ++ ys) ≡ take n xs
take-append_le zero xs ys h = refl
take-append_le (suc n) [] ys h = elim h [ ]
take-append_le (suc n) (x ∷ xs) ys h = ap (◌∷◌ x) (take-append_le n xs ys (omega arith))

slice-append :
    (buf ys : List ℕ) (i n : ℕ) → i + n ≤ length buf → slice (buf ++ ys) i n ≡ slice buf i n
slice-append buf ys zero n h = take-append_le n buf ys (omega arith)
slice-append [] ys (suc i) n h = absurd (omega arith)
slice-append (x ∷ buf) ys (suc i) n h = slice-append buf ys i n (omega arith)

slice-take : (buf : List ℕ) (m i n : ℕ) → i + n ≤ m → slice (take m buf) i n ≡ slice buf i n
slice-take buf m zero n h = take-take n m buf (omega arith)
slice-take [] m (suc i) n h = rw (take-nil m)
slice-take (x ∷ buf) zero (suc i) n h = absurd (omega arith)
slice-take (x ∷ buf) (suc m) (suc i) n h = slice-take buf m i n (omega arith)

-- A resize that keeps the window's end in range keeps the window.
pub slice-resize :
    (buf : List ℕ) (m i n : ℕ)
    → i + n ≤ length buf
    → i + n ≤ m
    → slice (resize buf m) i n ≡ slice buf i n
slice-resize buf m i n h k =
    ground (arith, slice-take buf m i n, slice-append buf (replicate (m - length buf) 0) i n)
