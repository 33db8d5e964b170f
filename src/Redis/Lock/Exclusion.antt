-- ===== src/Redis/Lock/Exclusion.antt =====
-- Who holds the lock.
use mathlib.Core.Bool.{true≢false}
use distributed_instant_mess.Base.{
  ℕ, ◌<◌, ◌≡◌, ◌≢◌, ◌⊎◌, refl, sym, ap, ◌∙◌, subst, inl, inr, true, false, List, [], ◌∷◌, ◌++◌,
  if◌then◌else◌, Bool-cases,
}
use distributed_instant_mess.Base.Text.{Text, text_eq, text_eq_refl, text_eq_sound}
use distributed_instant_mess.Redis.{
  Server, Entry, absent, text, hash, list, IsRedis, redis_hset, ok,
}
use distributed_instant_mess.Redis.Lock.Script.{unlock-other}
use distributed_instant_mess.Redis.Lock.{lock_prefix, try_lock, release_lock}

-- What clients do: a turn of `acquireLock` or `releaseLock` with an identifier, or the writing of a
-- field of a hash.
pub data Turn : Type 0 where
  tries : Text → Turn
  releases : Text → Turn
  writes : (key hkey value : Text) → Turn

-- Redis, and the identifiers with which `acquireLock` has returned and that are not released since.
pub record System (V : Server) : Type 0 where
  pub redis : V.State
  pub holders : List Text

unfoldable pub remove : Text → List Text → List Text
remove id [] = []
remove id (x ∷ xs) = let rest = remove id xs in if text_eq id x then rest else x ∷ rest

absent-cases : (e : Entry) → (e ≡ absent) ⊎ (e ≢ absent)
absent-cases absent = inl refl
absent-cases (text v) = inr λ e. cc
absent-cases hash = inr λ e. cc
absent-cases list = inr λ e. cc

text-ne-absent : (v : Text) → text v ≢ absent
text-ne-absent v e = cc

differs : (v w : Text) → text_eq v w ≡ false → text_eq w v ≡ false
differs v w other = elim (Bool-cases (text_eq w v)) [
  | inl same ↦ absurd (
      true≢false
        (sym (text_eq_refl v) ∙ subst (λ x. text_eq v x ≡ false) (text_eq_sound w v same) other))
  | inr no_match ↦ no_match
]

module _ (V : Server) (lock_name : Text) (lock_timeout : ℕ) where
  unfoldable pub take_turn : System V → Turn → System V
  take_turn y (tries id) =
      let (success, redis) = try_lock V y.redis lock_name id lock_timeout in
      record { redis = redis; holders = if success then id ∷ y.holders else y.holders }
  take_turn y (releases id) = record {
    redis = (release_lock V y.redis lock_name id).1;
    holders = remove id y.holders;
  }
  take_turn y (writes key hkey value) = record y {
    redis = (V.command y.redis (redis_hset key hkey value)).1;
  }

  unfoldable pub take_turns : System V → List Turn → System V
  take_turns y [] = y
  take_turns y (t ∷ ts) = take_turns (take_turn y t) ts

  module _ (I : IsRedis V) (positive : 0 < lock_timeout) where
    -- No client holds the lock, or one does, and Redis has its identifier.
    abbrev pub IsExclusive : System V → Type 0
    IsExclusive y =
        (y.holders ≡ [])
        ⊎ ((id : Text) × (y.holders ≡ id ∷ [])
            × (I.entry y.redis (lock_prefix ++ lock_name) ≡ text id))

    abbrev Exclusive : V.State → List Text → Type 0
    Exclusive s holders =
        (holders ≡ [])
        ⊎ ((id : Text) × (holders ≡ id ∷ []) × (I.entry s (lock_prefix ++ lock_name) ≡ text id))

    -- A try succeeds if and only if there is nothing under the key.
    pub try-free :
        (s : V.State) (id : Text)
        → I.entry s (lock_prefix ++ lock_name) ≡ absent
        → ((try_lock V s lock_name id lock_timeout).0 ≡ true)
          × (I.entry (try_lock V s lock_name id lock_timeout).1 (lock_prefix ++ lock_name)
              ≡ text id)
    unfolding try_lock
    try-free s id e =
        let (replied, own) =
          I.set_nx_absent s (lock_prefix ++ lock_name) id lock_timeout positive e in
        (rw (replied, text_eq_refl ok) refl, own)

    pub try-taken :
        (s : V.State) (id : Text)
        → I.entry s (lock_prefix ++ lock_name) ≢ absent
        → try_lock V s lock_name id lock_timeout ≡ (false, s)
    unfolding try_lock
    try-taken s id e =
        rw (I.set_nx_there s (lock_prefix ++ lock_name) id lock_timeout positive e) refl

    tries-Exclusive :
        (s : V.State) (holders : List Text) (id : Text)
        → Exclusive s holders
        → Exclusive
            (try_lock V s lock_name id lock_timeout).1
            (if (try_lock V s lock_name id lock_timeout).0 then id ∷ holders else holders)
    tries-Exclusive s holders id h = elim (absent-cases (I.entry s (lock_prefix ++ lock_name))) [
      | inl free ↦ elim h [
        | inl e ↦
            let (success, own) = try-free s id free in
            inr (id, rw success (ap (λ l. id ∷ l) e), own)
        | inr (w, e, v) ↦ absurd (text-ne-absent w (sym v ∙ free))
      ]
      | inr taken ↦ rw (try-taken s id taken) h
    ]

    releases-Exclusive :
        (s : V.State) (holders : List Text) (id : Text)
        → Exclusive s holders
        → Exclusive (release_lock V s lock_name id).1 (remove id holders)
    unfolding remove release_lock
    releases-Exclusive s holders id (inl e) = rw e (inl refl)
    releases-Exclusive s holders id (inr (w, e, v)) = elim (Bool-cases (text_eq id w)) [
      | inl same ↦ rw (e, same) (inl refl)
      | inr other ↦
          let kept = unlock-other V I s (lock_prefix ++ lock_name) id w v (differs id w other) in
          inr (w, rw (e, other) refl, ap (λ p. I.entry p.1 (lock_prefix ++ lock_name)) kept ∙ v)
    ]

    pub take_turn-IsExclusive :
        (y : System V) (t : Turn) → IsExclusive y → IsExclusive (take_turn y t)
    unfolding take_turn
    take_turn-IsExclusive y (tries id) h = tries-Exclusive y.redis y.holders id h
    take_turn-IsExclusive y (releases id) h = releases-Exclusive y.redis y.holders id h
    take_turn-IsExclusive y (writes key hkey value) (inl e) = inl e
    take_turn-IsExclusive y (writes key hkey value) (inr (id, e, v)) =
        inr (id, e, I.hset_text y.redis key hkey value (lock_prefix ++ lock_name) id v)

    take_turns-IsExclusive :
        (ts : List Turn) (y : System V) → IsExclusive y → IsExclusive (take_turns y ts)
    unfolding take_turns
    take_turns-IsExclusive [] y h = h
    take_turns-IsExclusive (t ∷ ts) y h =
        take_turns-IsExclusive ts (take_turn y t) (take_turn-IsExclusive y t h)

    -- However clients take turns in trying to get the lock, in releasing it, with the identifier that
    -- they hold or with any other, and in writing hashes, from a state in which none holds it: at any
    -- time at most one holds the lock, and then Redis has the identifier of that one under the key
    -- of the lock. Redis does what its documentation says of GET, SET, DEL, HSET and EVAL, by which the
    -- script of `releaseLock` runs, the lock is asked for with a time to live and does not expire.
    pub turns-IsExclusive :
        (ts : List Turn) (y : System V) → y.holders ≡ [] → IsExclusive (take_turns y ts)
    turns-IsExclusive ts y e = take_turns-IsExclusive ts y (inl e)
