-- ===== src/Net/Channel/Events.antt =====
-- What the event mask of a channel can be, and how its tests follow the calls that change it.
use Prim.Native.Nat.{bit_and, bit_or}
use distributed_instant_mess.Base.{ℕ, ◌≡◌, refl, Bool, true, false, not, ◌&&◌, ◌==◌, List, [], ◌∷◌}
use distributed_instant_mess.Net.Channel.{
  Channel, none_event, read_event, write_event, init, enable_reading, enable_writing,
  disable_reading, disable_writing, disable_all, is_none_event, is_writing, is_reading, has,
  complement,
}

-- The four sets of events that a channel can wait for.
pub data IsMask (e : ℕ) : Type 0 where
  nothing : e ≡ 0 → IsMask e
  reads : e ≡ 3 → IsMask e
  writes : e ≡ 4 → IsMask e
  both : e ≡ 7 → IsMask e

IsMask-cases {ℓ} : (P : ℕ → Type ℓ) {e : ℕ} → P 0 → P 3 → P 4 → P 7 → IsMask e → P e
IsMask-cases P p0 p3 p4 p7 (nothing e) = rw e p0
IsMask-cases P p0 p3 p4 p7 (reads e) = rw e p3
IsMask-cases P p0 p3 p4 p7 (writes e) = rw e p4
IsMask-cases P p0 p3 p4 p7 (both e) = rw e p7

-- What the tests say of a channel.
pub record Waits (c : Channel) (reading writing : Bool) : Type 0 where
  pub mask : IsMask c.events
  pub reads_is : is_reading c ≡ reading
  pub writes_is : is_writing c ≡ writing

-- The same of a bare mask.
abbrev Masks : ℕ → Bool → Bool → Type 0
Masks e reading writing = IsMask e × (has e read_event ≡ reading) × (has e write_event ≡ writing)

module _ (c : Channel) (m : IsMask c.events) where
  pub enable_writing-Waits : Waits (enable_writing c) (is_reading c) true
  unfolding enable_writing is_reading is_writing
  enable_writing-Waits =
      let (k, r, w) =
        IsMask-cases (λ e. Masks (bit_or e write_event) (has e read_event) true)
          (writes refl, refl, refl) (both refl, refl, refl) (writes refl, refl, refl)
          (both refl, refl, refl) m in
      record { mask = k; reads_is = r; writes_is = w }

  pub enable_reading-Waits : Waits (enable_reading c) true (is_writing c)
  unfolding enable_reading is_reading is_writing
  enable_reading-Waits =
      let (k, r, w) =
        IsMask-cases (λ e. Masks (bit_or e read_event) true (has e write_event))
          (reads refl, refl, refl) (reads refl, refl, refl) (both refl, refl, refl)
          (both refl, refl, refl) m in
      record { mask = k; reads_is = r; writes_is = w }

  pub disable_writing-Waits : Waits (disable_writing c) (is_reading c) false
  unfolding disable_writing is_reading is_writing
  disable_writing-Waits =
      let (k, r, w) =
        IsMask-cases (λ e. Masks (bit_and e (complement write_event)) (has e read_event) false)
          (nothing refl, refl, refl) (reads refl, refl, refl) (nothing refl, refl, refl)
          (reads refl, refl, refl) m in
      record { mask = k; reads_is = r; writes_is = w }

  pub disable_reading-Waits : Waits (disable_reading c) false (is_writing c)
  unfolding disable_reading is_reading is_writing
  disable_reading-Waits =
      let (k, r, w) =
        IsMask-cases (λ e. Masks (bit_and e (complement read_event)) false (has e write_event))
          (nothing refl, refl, refl) (nothing refl, refl, refl) (writes refl, refl, refl)
          (writes refl, refl, refl) m in
      record { mask = k; reads_is = r; writes_is = w }

pub disable_all-Waits : (c : Channel) → Waits (disable_all c) false false
unfolding disable_all is_reading is_writing
disable_all-Waits c = record { mask = nothing refl; reads_is = refl; writes_is = refl }

pub init-IsMask : (fd : ℕ) → IsMask (init fd).events
unfolding init
init-IsMask fd = nothing refl

pub is_none_event-mask :
    (c : Channel) → IsMask c.events → is_none_event c ≡ (not (is_reading c) && not (is_writing c))
unfolding is_none_event is_reading is_writing
is_none_event-mask c =
    IsMask-cases (λ e. (e == none_event) ≡ (not (has e read_event) && not (has e write_event))) refl
      refl refl refl

-- The calls of TcpConnection on its channel.
pub data Call : Type 0 where
  reading_on writing_on reading_off writing_off all_off : Call

pub apply : Channel → Call → Channel
unfolding enable_reading enable_writing disable_reading disable_writing disable_all
apply c reading_on = enable_reading c
apply c writing_on = enable_writing c
apply c reading_off = disable_reading c
apply c writing_off = disable_writing c
apply c all_off = disable_all c

-- The two flags that the mask stands for.
pub apply_flags : Bool × Bool → Call → Bool × Bool
apply_flags (r, w) reading_on = (true, w)
apply_flags (r, w) writing_on = (r, true)
apply_flags (r, w) reading_off = (false, w)
apply_flags (r, w) writing_off = (r, false)
apply_flags (r, w) all_off = (false, false)

pub run : Channel → List Call → Channel
run c [] = c
run c (k ∷ ks) = run (apply c k) ks

pub run_flags : Bool × Bool → List Call → Bool × Bool
run_flags f [] = f
run_flags f (k ∷ ks) = run_flags (apply_flags f k) ks

pub fd-apply : (c : Channel) (k : Call) → (apply c k).fd ≡ c.fd
unfolding apply
fd-apply c reading_on = refl
fd-apply c writing_on = refl
fd-apply c reading_off = refl
fd-apply c writing_off = refl
fd-apply c all_off = refl

pub index-apply : (c : Channel) (k : Call) → (apply c k).index ≡ c.index
unfolding apply
index-apply c reading_on = refl
index-apply c writing_on = refl
index-apply c reading_off = refl
index-apply c writing_off = refl
index-apply c all_off = refl

abbrev Shows : Channel → Bool × Bool → Type 0
Shows c f = Waits c f.0 f.1

apply-Shows :
    (c : Channel) (f : Bool × Bool) (k : Call) → Shows c f → Shows (apply c k) (apply_flags f k)
unfolding apply apply_flags
apply-Shows c (r, w) reading_on s = rw (← s.writes_is) (enable_reading-Waits c s.mask)
apply-Shows c (r, w) writing_on s = rw (← s.reads_is) (enable_writing-Waits c s.mask)
apply-Shows c (r, w) reading_off s = rw (← s.writes_is) (disable_reading-Waits c s.mask)
apply-Shows c (r, w) writing_off s = rw (← s.reads_is) (disable_writing-Waits c s.mask)
apply-Shows c (r, w) all_off s = disable_all-Waits c

run-Shows :
    (c : Channel) (f : Bool × Bool) (ks : List Call) → Shows c f → Shows (run c ks) (run_flags f ks)
unfolding run run_flags
run-Shows c f [] s = s
run-Shows c f (k ∷ ks) s = run-Shows (apply c k) (apply_flags f k) ks (apply-Shows c f k s)

-- After any calls on a new channel, `isReading`, `isWriting` and `isNoneEvent` say what two flags,
-- set and cleared one at a time, would say.
pub run-flags :
    (fd : ℕ) (ks : List Call)
    → let c = run (init fd) ks in
      ((is_reading c, is_writing c) ≡ run_flags (false, false) ks)
      × (is_none_event c ≡ (not (is_reading c) && not (is_writing c)))
unfolding init
run-flags fd ks =
    let s : Shows (run (init fd) ks) (run_flags (false, false) ks) =
      run-Shows (init fd) (false, false) ks
        (record {
          mask = nothing refl;
          reads_is = unfold is_reading in refl;
          writes_is = unfold is_writing in refl;
        }) in
    (λ i. (s.reads_is i, s.writes_is i), is_none_event-mask (run (init fd) ks) s.mask)
