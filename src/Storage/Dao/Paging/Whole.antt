-- ===== src/Storage/Dao/Paging/Whole.antt =====
-- A client that reads page by page gets every row once, in order.
use distributed_instant_mess.Base.{
  ℕ, zero, suc, ◌+◌, ◌-◌, ◌*◌, ◌^◌, ◌≤◌, ◌<◌, ◌≡◌, refl, sym, ap, ◌∙◌, inl, inr, true, false,
  Option, none, some, List, [], ◌∷◌, ◌++◌, arith, ltb, if◌then◌else◌, Bool-cases, length, take,
  drop, length-take, length-drop, take-take, take-all, take-append-drop,
}
use distributed_instant_mess.Storage.Dao.Paging.{
  to_int, pop_back, last_or, back, load_chat_msg, get_user_threads,
}

module _ {A : Type 0} (id : A → ℕ) where
  -- The rows with an id above `last`.
  unfoldable pub after : ℕ → List A → List A
  after last [] = []
  after last (row ∷ rows) =
      let rest = after last rows in if ltb last (id row) then row ∷ rest else rest

  -- The ids rise, and are above `b`.
  unfoldable pub Rises : ℕ → List A → Type 0
  Rises b [] = Unit
  Rises b (row ∷ rows) = (b < id row) × Rises (id row) rows

  -- The ids fit into a positive int.
  unfoldable pub AreInts : List A → Type 0
  AreInts [] = Unit
  AreInts (row ∷ rows) = (id row < 2 ^ 31) × AreInts rows

to_int-lem : (n : ℕ) → n < 2 ^ 31 → to_int n ≡ n
to_int-lem n small = omega arith

abbrev pub append_to : {A : Type 0} → List A → Option (List A) → Option (List A)
append_to rows none = none
append_to rows (some rest) = some (rows ++ rest)

abbrev pub from_cursor : {A : Type 0} → List A → Option ℕ → (ℕ → Option (List A)) → Option (List A)
from_cursor rows none f = none
from_cursor rows (some c) f = append_to rows (f c)

module _ {A : Type 0} (id : A → ℕ) (select : ℕ → ℕ → List A) where
  -- All pages behind `last`, at most `k`. A cursor that is not defined gives nothing.
  unfoldable pub load_all : ℕ → ℕ → ℕ → Option (List A)
  load_all zero page_size last = none
  load_all (suc k) page_size last =
      let page = load_chat_msg id select last page_size in
      let rest = from_cursor page.messages page.next_cursor (load_all k page_size) in
      if page.load_more then rest else some page.messages

  unfoldable pub load_threads : ℕ → ℕ → ℕ → Option (List A)
  load_threads zero page_size last = none
  load_threads (suc k) page_size last =
      let page = get_user_threads id select last page_size in
      let rest = append_to page.threads (load_threads k page_size page.next_last_id) in
      if page.more then rest else some page.threads

module _ {A : Type 0} (id : A → ℕ) where
  after-above : (a b : ℕ) (rows : List A) → Rises id b rows → a ≤ b → after id a rows ≡ rows
  unfolding after Rises
  after-above a b [] up le = refl
  after-above a b (row ∷ rows) (lt, up) le = ground (arith, after-above a (id row) rows up)

  after-Rises : (c b : ℕ) (rows : List A) → Rises id b rows → Rises id c (after id c rows)
  unfolding after Rises
  after-Rises c b [] up = tt
  after-Rises c b (row ∷ rows) (lt, up) = elim (Bool-cases (ltb c (id row))) [
    | inl above ↦
        rw (above, after-above c (id row) rows up (ground (arith, above)))
          (ground (arith, above), up)
    | inr below ↦ rw below (after-Rises c (id row) rows up)
  ]

  after-AreInts : (c : ℕ) (rows : List A) → AreInts id rows → AreInts id (after id c rows)
  unfolding after AreInts
  after-AreInts c [] ints = tt
  after-AreInts c (row ∷ rows) (first, others) = elim (Bool-cases (ltb c (id row))) [
    | inl above ↦ rw above (first, after-AreInts c rows others)
    | inr below ↦ rw below (after-AreInts c rows others)
  ]

  after-after : (a d : ℕ) (rows : List A) → a ≤ d → after id d (after id a rows) ≡ after id d rows
  unfolding after
  after-after a d [] le = refl
  after-after a d (row ∷ rows) le = ground (arith, after-after a d rows le)

module _ {A : Type 0} (id : A → ℕ) (select : ℕ → ℕ → List A) where
  last_or-above :
      (n b : ℕ) (rows : List A) → Rises id b rows → b ≤ last_or id select b (take n rows)
  unfolding Rises
  last_or-above zero b rows up = omega arith
  last_or-above (suc n) b [] up = omega arith
  last_or-above (suc n) b (row ∷ rows) (lt, up) =
      omega (arith, last_or-above n (id row) rows up, lt)

  after-last_or :
      (n b : ℕ) (rows : List A)
      → Rises id b rows
      → after id (last_or id select b (take n rows)) rows ≡ drop n rows
  unfolding after Rises
  after-last_or zero b rows up = after-above id b b rows up (omega arith)
  after-last_or (suc n) b [] up = refl
  after-last_or (suc n) b (row ∷ rows) (lt, up) =
      ground (arith, last_or-above n (id row) rows up, after-last_or n (id row) rows up)

  last_or-int :
      (n d : ℕ) (rows : List A)
      → d < 2 ^ 31
      → AreInts id rows
      → last_or id select d (take n rows) < 2 ^ 31
  unfolding AreInts
  last_or-int zero d rows small ints = small
  last_or-int (suc n) d [] small ints = small
  last_or-int (suc n) d (row ∷ rows) small (first, others) =
      last_or-int n (id row) rows first others

  back-last_or :
      (d : ℕ) (rows : List A)
      → 0 < length rows
      → last_or id select d rows < 2 ^ 31
      → back id select rows ≡ some (last_or id select d rows)
  back-last_or d [] pos small = absurd (omega (arith, pos))
  back-last_or d (row ∷ rows) pos small =
      ap some (to_int-lem (last_or id select (id row) rows) small)

pages_left : (k p n : ℕ) → p < n → n ≤ suc k * p → 0 < k
pages_left zero p n lt le = absurd (omega (arith, lt, le))
pages_left (suc k) p n lt le = omega arith

-- `table`, with ids that rise, is what the query reads, and it gives the first rows behind `last`.
module _ {A : Type 0} (id : A → ℕ) (select : ℕ → ℕ → List A) (table : List A) (b : ℕ) where
  module _ (up : Rises id b table) (ints : AreInts id table)
      (reads : (last limit : ℕ)
        → last < 2 ^ 31
        → limit < 2 ^ 31
        → select last limit ≡ take limit (after id last table)) where
    next-int :
        (last p : ℕ)
        → last < 2 ^ 31
        → last_or id select last (take p (after id last table)) < 2 ^ 31
    next-int last p small =
        last_or-int id select p last (after id last table) small (after-AreInts id last table ints)

    rows_full :
        (last p : ℕ)
        → ltb p (length (take (p + 1) (after id last table))) ≡ true
        → p < length (after id last table)
    rows_full last p full = ground (arith, full, length-take (p + 1) (after id last table))

    pop_back-lem :
        (last p : ℕ)
        → p < length (after id last table)
        → pop_back id select (take (p + 1) (after id last table)) ≡ take p (after id last table)
    pop_back-lem last p lt =
        let rows = after id last table in
        ap (λ n. take n (take (p + 1) rows)) (omega (arith, length-take (p + 1) rows, lt))
        ∙ take-take p (p + 1) rows (omega arith)

    next-lem :
        (last p : ℕ)
        → after id (last_or id select last (take p (after id last table))) table
          ≡ drop p (after id last table)
    next-lem last p =
        let rows = after id last table in
        let rises = after-Rises id last b table up in
        sym (
          after-after id last (last_or id select last (take p rows)) table
            (last_or-above id select p last rows rises))
        ∙ after-last_or id select p last rows rises

    rows_last :
        (last p : ℕ)
        → ltb p (length (take (p + 1) (after id last table))) ≡ false
        → take (p + 1) (after id last table) ≡ after id last table
    rows_last last p short =
        take-all (p + 1) (after id last table)
          (ground (arith, short, length-take (p + 1) (after id last table)))

    length-next :
        (last p : ℕ)
        → length (after id (last_or id select last (take p (after id last table))) table)
          ≡ length (after id last table) - p
    length-next last p = ap length (next-lem last p) ∙ length-drop p (after id last table)

    -- The messages behind `last` are loaded page by page, each once, in the order of their ids, in
    -- `k` pages if that many of the given size are enough: none is left out or given twice between
    -- two pages. This holds if the ids of the table, `last` and one more than the size are below 2 ^ 31,
    -- the size is not 0, there is a message behind `last`, and the database gives the first rows
    -- behind an id of a table that does not change.
    pub load_all-whole :
        (k page_size last : ℕ)
        → last < 2 ^ 31
        → page_size + 1 < 2 ^ 31
        → 0 < page_size
        → 0 < length (after id last table)
        → length (after id last table) ≤ k * page_size
        → load_all id select k page_size last ≡ some (after id last table)
    unfolding load_all load_chat_msg
    load_all-whole zero page_size last small fits pos some_rows enough =
        absurd (omega (arith, some_rows, enough))
    load_all-whole (suc k) page_size last small fits pos some_rows enough =
        let rows = after id last table in
        let next = last_or id select last (take page_size rows) in
        elim (Bool-cases (ltb page_size (length (take (page_size + 1) rows)))) [
          | inl full ↦
              let lt = rows_full last page_size full in
              rw
                (
                  reads last (page_size + 1) small fits,
                  full,
                  pop_back-lem last page_size lt,
                  back-last_or id select last (take page_size rows)
                      (omega (arith, length-take page_size rows, lt, pos))
                      (next-int last page_size small),
                  load_all-whole k page_size next (next-int last page_size small) fits pos
                      (omega (arith, length-next last page_size, lt))
                      (omega (arith, length-next last page_size, enough)),
                  next-lem last page_size,
                )
                (ap some (take-append-drop page_size rows))
          | inr short ↦
              rw (reads last (page_size + 1) small fits, short)
                (ap some (rows_last last page_size short))
        ]

    -- The threads of a user behind `last` are loaded page by page, each once, in the order of their
    -- ids, also if there are none, under the same conditions.
    pub load_threads-whole :
        (k page_size last : ℕ)
        → last < 2 ^ 31
        → page_size + 1 < 2 ^ 31
        → 0 < k
        → length (after id last table) ≤ k * page_size
        → load_threads id select k page_size last ≡ some (after id last table)
    unfolding load_threads get_user_threads
    load_threads-whole zero page_size last small fits pos enough = absurd (omega (arith, pos))
    load_threads-whole (suc k) page_size last small fits pos enough =
        let rows = after id last table in
        let next = last_or id select last (take page_size rows) in
        elim (Bool-cases (ltb page_size (length (take (page_size + 1) rows)))) [
          | inl full ↦
              let lt = rows_full last page_size full in
              rw
                (
                  reads last (page_size + 1) small fits,
                  full,
                  pop_back-lem last page_size lt,
                  to_int-lem next (next-int last page_size small),
                  load_threads-whole k page_size next (next-int last page_size small) fits
                      (pages_left k page_size (length rows) lt enough)
                      (omega (arith, length-next last page_size, enough)),
                  next-lem last page_size,
                )
                (ap some (take-append-drop page_size rows))
          | inr short ↦
              rw (reads last (page_size + 1) small fits, short)
                (ap some (rows_last last page_size short))
        ]
