-- ===== src/Redis/Count/Steps.antt =====
-- What one change of a count does to Redis.
use distributed_instant_mess.Base.{
  ℕ, ◌<◌, ◌^◌, arith, ◌≡◌, ◌≢◌, ◌⊎◌, refl, sym, ap, ◌∙◌, subst, inl, inr, false, Option, none, some,
  [], ◌∷◌, ◌++◌,
}
use mathlib.Core.Bool.{true≢false}
use distributed_instant_mess.Base.Text.{Text, text_eq, text_eq_refl}
use distributed_instant_mess.Redis.{
  Reply, Server, absent, TakesFields, IsRedis, redis_hget, redis_hset, redis_del,
}
use distributed_instant_mess.Redis.Lock.Script.{unlock-own}
use distributed_instant_mess.Redis.Manager.{Manager, read, on_hget, on_integer, h_get, h_set}
use distributed_instant_mess.Redis.Manager.Balance.{on_integer-IsBalanced, IsBalanced}
use distributed_instant_mess.Redis.Lock.{
  lock_prefix, try_lock, acquire_lock, release_lock, manager_acquire_lock, manager_release_lock,
}
use distributed_instant_mess.Redis.Lock.Exclusion.{try-free}
use distributed_instant_mess.Redis.Count.{
  login_count, lock_count, lock_time_out, Numerals, Ended, done, and_then, new_count, release_after,
  store_count, change_count, first_turn, init_count,
}
use distributed_instant_mess.Redis.Count.Runs.{
  IsLive, Returns, run_command-Returns, lend-Returns, and_then-Returns,
}

-- A number that fits into a positive int can be read from its text, which is not empty, and that of 0
-- is "0".
pub record IsNumerals (N : Numerals) : Type 0 where
  pub stoi-to_string : (n : ℕ) → n < 2 ^ 31 → N.stoi (N.to_string n) ≡ some n
  pub not_empty : (n : ℕ) → (c : ℕ) × (s : Text) × (N.to_string n ≡ c ∷ s)
  pub zero_text : N.to_string 0 ≡ 48 ∷ []

abbrev lock_key : Text
lock_key = lock_prefix ++ lock_count

-- The counts are not kept under the key of their lock.
apart : login_count ≢ lock_key
unfolding text_eq
apart e = true≢false (sym (text_eq_refl login_count) ∙ ap (text_eq login_count) e)

module _ (V : Server) (I : IsRedis V) (N : Numerals) (L : IsNumerals N) where
  -- Redis has the text of the number for the server, or nothing, which stands for 0.
  abbrev pub HasCount : V.State → Text → ℕ → Type 0
  HasCount s server_name n =
      (I.hvalue s login_count server_name ≡ some (N.to_string n))
      ⊎ ((I.hvalue s login_count server_name ≡ none) × (n ≡ 0))

  -- What a reading of the count gives, with no change to Redis.
  record IsRead (f : ℕ → ℕ) (s : V.State) (n : ℕ) (p : Option Reply × V.State) : Type 0 where
    unchanged : p.1 ≡ s
    counted : new_count V N f (on_hget p.0).0 ≡ some (f n)
    balanced : IsBalanced p.0 (on_hget p.0).1

  new_count-text :
      (f : ℕ → ℕ) (n : ℕ) → n < 2 ^ 31 → new_count V N f (read (N.to_string n)) ≡ some (f n)
  new_count-text f n small =
      let (c, s, e) = L.not_empty n in rw (e, sym (ap N.stoi e) ∙ L.stoi-to_string n small) refl

  HasCount-IsRead :
      (f : ℕ → ℕ) (s : V.State) (server_name : Text) (n : ℕ)
      → n < 2 ^ 31
      → TakesFields (I.entry s login_count)
      → HasCount s server_name n
      → IsRead f s n (V.command s (redis_hget login_count server_name))
  unfolding on_hget
  HasCount-IsRead f s server_name n small takes (inl e) =
      rw (I.hget_some s login_count server_name _ e)
        (record { unchanged = refl; counted = new_count-text f n small; balanced = inl refl })
  HasCount-IsRead f s server_name n small takes (inr (e, z)) =
      rw (I.hget_none s login_count server_name takes e)
        (record { unchanged = refl; counted = rw z refl; balanced = inl refl })

  -- No client holds the lock of the counts.
  abbrev pub IsFree : V.State → Type 0
  IsFree s = I.entry s lock_key ≡ absent

  -- Redis with the lock of an identifier, a count written, and the lock released.
  abbrev locked : V.State → Text → V.State
  locked s id = (try_lock V s lock_count id lock_time_out).1

  abbrev counted : V.State → Text → Text → V.State
  counted s server_name v = (V.command s (redis_hset login_count server_name v)).1

  abbrev unlocked : V.State → Text → V.State
  unlocked s id = (release_lock V s lock_count id).1

  abbrev pub written : V.State → Text → Text → Text → V.State
  written s id server_name v = unlocked (counted (locked s id) server_name v) id

  -- The lock is free again, the count is the text written, and the others are as before.
  pub record IsWritten (s : V.State) (server_name v : Text) (s' : V.State) : Type 0 where
    pub free : IsFree s'
    pub takes : TakesFields (I.entry s' login_count)
    pub same : I.hvalue s' login_count server_name ≡ some v
    pub others : (g : Text) → g ≢ server_name → I.hvalue s' login_count g ≡ I.hvalue s login_count g

  locked-hvalue :
      (s : V.State) (id g : Text) → I.hvalue (locked s id) login_count g ≡ I.hvalue s login_count g
  unfolding try_lock
  locked-hvalue s id g = I.set_nx_hvalue s lock_key id lock_time_out login_count g

  locked-entry :
      (s : V.State) (id : Text) → I.entry (locked s id) login_count ≡ I.entry s login_count
  unfolding try_lock
  locked-entry s id = I.set_nx_others s lock_key id lock_time_out login_count apart

  pub written-IsWritten :
      (s : V.State) (id server_name v : Text)
      → IsFree s
      → TakesFields (I.entry s login_count)
      → IsWritten s server_name v (written s id server_name v)
  unfolding release_lock
  written-IsWritten s id server_name v free takes =
      let (success, own) = try-free V lock_count lock_time_out I (omega arith) s id free in
      let l = locked s id in
      let c = counted l server_name v in
      let still = I.hset_text l login_count server_name v lock_key id own in
      let deleted = unlock-own V I c lock_key id still in
      let (replied, gone, fields) = I.del_text c lock_key id still in
      let (same, is_hash) =
        I.hset_field l login_count server_name v
          (subst TakesFields (sym (locked-entry s id)) takes) in
      let after = λ (P : V.State → Type 0) (h : P (V.command c (redis_del lock_key)).1).
        subst (λ p. P p.1) (sym deleted) h in
      record {
        free = after (λ s'. IsFree s') gone;
        takes =
            after (λ s'. TakesFields (I.entry s' login_count))
              (subst TakesFields (sym (I.del_others c lock_key login_count apart ∙ is_hash)) tt);
        same =
            after (λ s'. I.hvalue s' login_count server_name ≡ some v)
              (fields login_count server_name ∙ same);
        others = λ g ne.
            after (λ s'. I.hvalue s' login_count g ≡ I.hvalue s login_count g)
              (fields login_count g
                ∙ I.hset_other l login_count server_name v g ne
                ∙ locked-hvalue s id g);
      }

  acquire-first :
      (s : V.State) (id : Text)
      → IsFree s
      → acquire_lock V s lock_count id lock_time_out ((λ s. s) ∷ []) ≡ (id, locked s id)
  unfolding acquire_lock
  acquire-first s id free =
      rw ((try-free V lock_count lock_time_out I (omega arith) s id free).0) refl

  release-Returns :
      (m : Manager V) (c : ℕ) (id : Text) (e : Ended) (s : V.State)
      → IsLive V m
      → m.redis ≡ s
      → Returns V e (unlocked s (c ∷ id)) (release_after V N m (c ∷ id) e)
  unfolding manager_release_lock
  release-Returns m c id e s live same =
      and_then-Returns V (manager_release_lock V m lock_count (c ∷ id)) _
        (lend-Returns V m false (λ s. release_lock V s lock_count (c ∷ id)) live)
        λ m' live' same'. record {
          manager = m';
          returned = refl;
          live = live';
          state_is = same' ∙ ap (λ t. unlocked t (c ∷ id)) same;
        }

  write-Returns :
      (m : Manager V) (c : ℕ) (id server_name v : Text) (s : V.State)
      → IsLive V m
      → m.redis ≡ s
      → Returns V done (unlocked (counted s server_name v) (c ∷ id)) (
          and_then V
            (h_set V m login_count server_name v)
            λ b m'. release_after V N m' (c ∷ id) done)
  write-Returns m c id server_name v s live same =
      and_then-Returns V (h_set V m login_count server_name v) _
        (run_command-Returns V m false (redis_hset login_count server_name v) on_integer
          (on_integer-IsBalanced (V.command m.redis (redis_hset login_count server_name v)).0) live)
        λ m' live' same'.
          release-Returns m' c id done (counted s server_name v) live'
            (same' ∙ ap (λ t. counted t server_name v) same)

  -- What follows the lock.
  acquire-Returns :
      (m : Manager V) (c : ℕ) (id : Text) (s : V.State)
      (k : Text → Manager V → Option (Ended × Manager V))
      → IsLive V m
      → IsFree m.redis
      → ((m' : Manager V)
          → IsLive V m'
          → m'.redis ≡ locked m.redis (c ∷ id)
          → Returns V done s (k (c ∷ id) m'))
      → Returns V done s (
          and_then V (manager_acquire_lock V m lock_count (c ∷ id) lock_time_out ((λ s. s) ∷ [])) k)
  unfolding manager_acquire_lock
  acquire-Returns m c id s k live free h =
      and_then-Returns V _ k
        (subst
          (λ p.
            Returns V p.0 p.1
              (manager_acquire_lock V m lock_count (c ∷ id) lock_time_out ((λ s. s) ∷ [])))
          (acquire-first m.redis (c ∷ id) free)
          (lend-Returns V m []
            (λ s. acquire_lock V s lock_count (c ∷ id) lock_time_out ((λ s. s) ∷ [])) live))
        h

  locked-HasCount :
      (s : V.State) (id server_name : Text) (n : ℕ)
      → HasCount s server_name n
      → HasCount (locked s id) server_name n
  locked-HasCount s id server_name n (inl e) = inl (locked-hvalue s id server_name ∙ e)
  locked-HasCount s id server_name n (inr (e, z)) = inr (locked-hvalue s id server_name ∙ e, z)

  pub change-Returns :
      (f : ℕ → ℕ) (m : Manager V) (c : ℕ) (id server_name : Text) (n : ℕ)
      → IsLive V m
      → IsFree m.redis
      → n < 2 ^ 31
      → TakesFields (I.entry m.redis login_count)
      → HasCount m.redis server_name n
      → Returns V done
          (written m.redis (c ∷ id) server_name (N.to_string (f n)))
          (change_count V N f m server_name (first_turn V c id))
  unfolding change_count
  change-Returns f m c id server_name n live free small takes has =
      acquire-Returns m c id _ _ live free λ m' live' same'.
        let r =
          HasCount-IsRead f m'.redis server_name n small
            (subst (λ t. TakesFields (I.entry t login_count)) (sym same')
              (subst TakesFields (sym (locked-entry m.redis (c ∷ id))) takes))
            (subst (λ t. HasCount t server_name n) (sym same')
              (locked-HasCount m.redis (c ∷ id) server_name n has)) in
        and_then-Returns V (h_get V m' login_count server_name) _
          (run_command-Returns V m' (read []) (redis_hget login_count server_name) on_hget
            r.balanced live')
          λ m'' live'' same''.
            subst
              (λ o.
                Returns V done (written m.redis (c ∷ id) server_name (N.to_string (f n)))
                  (store_count V N o m'' server_name (c ∷ id)))
              (sym r.counted)
              (write-Returns m'' c id server_name (N.to_string (f n)) (locked m.redis (c ∷ id))
                live'' (same'' ∙ r.unchanged ∙ same'))

  pub init-Returns :
      (m : Manager V) (c : ℕ) (id server_name : Text)
      → IsLive V m
      → IsFree m.redis
      → Returns V done
          (written m.redis (c ∷ id) server_name (48 ∷ []))
          (init_count V N m server_name (first_turn V c id))
  unfolding init_count
  init-Returns m c id server_name live free = acquire-Returns m c id _ _ live free λ m' live' same'.
      write-Returns m' c id server_name (48 ∷ []) (locked m.redis (c ∷ id)) live' same'
