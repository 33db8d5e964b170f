-- ===== src/Log/File/Rolling.antt =====
-- Rolling loses nothing and cuts no line, and keeps the files small.
use distributed_instant_mess.Base.{
  ℕ, zero, suc, ◌+◌, ◌≤◌, ◌<◌, ◌≡◌, refl, sym, ap, ◌∙◌, Bool, true, false, List, [], ◌∷◌, ◌++◌,
  arith, length, length-append, if◌then◌else◌, drop, take-all, drop-all, ◌-◌, not, append-nil,
  append_assoc, Bool-cases, inl, inr, ltb, leb, ◌==◌,
}
use distributed_instant_mess.Log.File.{
  AppendFile, Fwrite, write_loop, file_append, LogFile, period, roll_file, check_period,
  after_append, append_unlocked,
}

-- fwrite(3): it takes all of the bytes, if there is no error.
abbrev pub TakesAll : Fwrite → Type 0
TakesAll fwrite = (xs : List ℕ) → (fwrite xs).0 ≡ length xs

-- The bytes of the files, the oldest first.
abbrev pub bytes_of : List AppendFile → List ℕ
bytes_of [] = []
bytes_of (f ∷ older) = bytes_of older ++ f.bytes

abbrev pub all_bytes : LogFile → List ℕ
all_bytes l = bytes_of (l.file ∷ l.older)

write_loop-nil : (fuel : ℕ) (fwrite : Fwrite) → write_loop fuel fwrite [] ≡ 0
unfolding write_loop
write_loop-nil zero fwrite = refl
write_loop-nil (suc fuel) fwrite = refl

write_loop-all :
    (fuel : ℕ) (fwrite : Fwrite) (line : List ℕ)
    → TakesAll fwrite
    → write_loop (suc fuel) fwrite line ≡ length line
unfolding write_loop
write_loop-all fuel fwrite [] t = refl
write_loop-all fuel fwrite (x ∷ xs) t =
    let none_left : drop (length (x ∷ xs)) (x ∷ xs) ≡ [] =
      drop-all (length (x ∷ xs)) (x ∷ xs) (omega arith) in
    let some_bytes : (length (x ∷ xs) == 0) ≡ false = ground arith in
    let full : (length (x ∷ xs) == length (x ∷ xs)) ≡ true = ground arith in
    rw (some_bytes, t (x ∷ xs), full, none_left, write_loop-nil fuel fwrite) (omega arith)

-- The counter of a file is its length.
abbrev pub IsCounted : LogFile → Type 0
IsCounted l = l.file.written_bytes ≡ length l.file.bytes

file_append-lem :
    (fwrite : Fwrite) (f : AppendFile) (line : List ℕ)
    → TakesAll fwrite
    → file_append fwrite f line
      ≡ record { bytes = f.bytes ++ line; written_bytes = f.written_bytes + length line }
unfolding file_append
file_append-lem fwrite f line t =
    rw (write_loop-all (length line) fwrite line t, take-all (length line) line (omega arith)) refl

-- Rolling leaves the bytes of all files as they are, and its new file is empty.
record Rolls (l l' : LogFile) : Type 0 where
  same : all_bytes l' ≡ all_bytes l
  counted : IsCounted l → IsCounted l'
  same_size : l'.roll_size ≡ l.roll_size

if-Rolls : (b : Bool) {l x y : LogFile} → Rolls l x → Rolls l y → Rolls l (if b then x else y)
if-Rolls true r q = r
if-Rolls false r q = q

roll_file-Rolls : (l : LogFile) (now : ℕ) → Rolls l (roll_file l now)
unfolding roll_file
roll_file-Rolls l now = elim (Bool-cases (ltb l.last_roll now)) [
  | inl later ↦
      rw later (record { same = append-nil (all_bytes l); counted = λ c. refl; same_size = refl })
  | inr too_soon ↦ rw too_soon (record { same = refl; counted = λ c. c; same_size = refl })
]

check_period-Rolls : (l : LogFile) (now roll_now : ℕ) → Rolls l (check_period l now roll_now)
unfolding check_period
check_period-Rolls l now roll_now =
    if-Rolls (not (period now == l.start_of_period)) (roll_file-Rolls l roll_now) (
      if-Rolls (ltb 3 (now - l.last_flush))
        (record { same = refl; counted = λ c. c; same_size = refl })
        (record { same = refl; counted = λ c. c; same_size = refl }))

after_append-Rolls : (l : LogFile) (now roll_now : ℕ) → Rolls l (after_append l now roll_now)
unfolding after_append
after_append-Rolls l now roll_now =
    let checked = check_period-Rolls (record l { count = 0 }) now roll_now in
    if-Rolls (ltb l.roll_size l.file.written_bytes) (roll_file-Rolls l roll_now) (
      if-Rolls (leb l.check_every (suc l.count))
        (record { same = checked.same; counted = checked.counted; same_size = checked.same_size })
        (record { same = refl; counted = λ c. c; same_size = refl }))

append-Rolls :
    (fwrite : Fwrite) (l : LogFile) (line : List ℕ) (now roll_now : ℕ)
    → TakesAll fwrite
    → IsCounted l
    → (all_bytes (append_unlocked fwrite l line now roll_now) ≡ all_bytes l ++ line)
      × IsCounted (append_unlocked fwrite l line now roll_now)
unfolding append_unlocked
append-Rolls fwrite l line now roll_now t c =
    let e = file_append-lem fwrite l.file line t in
    let r = after_append-Rolls (record l { file = file_append fwrite l.file line }) now roll_now in
    (
      r.same ∙ rw e (sym (append_assoc (bytes_of l.older) l.file.bytes line)),
      r.counted (rw e (omega (arith, c, length-append l.file.bytes line))),
    )

-- A line to log, with the two times that are read.
pub record Entry : Type 0 where
  pub line : List ℕ
  pub now : ℕ
  pub roll_now : ℕ

unfoldable pub run : Fwrite → LogFile → List Entry → LogFile
run fwrite l [] = l
run fwrite l (e ∷ es) = run fwrite (append_unlocked fwrite l e.line e.now e.roll_now) es

abbrev pub lines : List Entry → List ℕ
lines [] = []
lines (e ∷ es) = e.line ++ lines es

-- With an `fwrite` that takes all it is given, the files hold together, the oldest first, what they
-- held before and then all lines in order, whenever and however often they roll. The counter of the
-- file in use stays its length.
pub run_keeps_lines :
    (fwrite : Fwrite) (l : LogFile) (es : List Entry)
    → TakesAll fwrite
    → IsCounted l
    → (all_bytes (run fwrite l es) ≡ all_bytes l ++ lines es) × IsCounted (run fwrite l es)
unfolding run
run_keeps_lines fwrite l [] t c = (sym (append-nil (all_bytes l)), c)
run_keeps_lines fwrite l (e ∷ es) t c =
    let (same, counted) = append-Rolls fwrite l e.line e.now e.roll_now t c in
    let (all, last) =
      run_keeps_lines fwrite (append_unlocked fwrite l e.line e.now e.roll_now) es t counted in
    (all ∙ ap (λ ys. ys ++ lines es) same ∙ append_assoc (all_bytes l) e.line (lines es), last)

-- If a second has passed since the last roll, a file that has grown beyond the limit is left: the
-- file in use holds at most `rollSize_` bytes after each append.
pub append_within :
    (fwrite : Fwrite) (l : LogFile) (line : List ℕ) (now roll_now : ℕ)
    → TakesAll fwrite
    → IsCounted l
    → l.last_roll < roll_now
    → length (append_unlocked fwrite l line now roll_now).file.bytes ≤ l.roll_size
unfolding append_unlocked after_append check_period roll_file
append_within fwrite l line now roll_now t c h =
    rw (file_append-lem fwrite l.file line t) (ground (arith, c, length-append l.file.bytes line))
