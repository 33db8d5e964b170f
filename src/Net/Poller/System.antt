-- ===== src/Net/Poller/System.antt =====
-- A loop with all its channels: what any sequence of calls leaves in the kernel.
use distributed_instant_mess.Base.Table.{assign}
use distributed_instant_mess.Base.{
  ℕ, ◌≡◌, ◌≢◌, refl, ◌∙◌, false, Option, none, some, ◌==◌, List, [], ◌∷◌, arith, inl, inr,
  Bool-cases, ==_iff,
}
use distributed_instant_mess.Net.Channel.{Channel, Index, fresh, added, deleted, init}
use distributed_instant_mess.Net.Channel.Events.{Call, apply, fd-apply, index-apply}
use distributed_instant_mess.Net.Poller.{
  Epoll, Poller, Outcome, goes, aborts, update_channel, remove_channel,
}
use distributed_instant_mess.Net.Poller.Interest.{
  Holds, InStep, Frames, Succeeds, update_channel-Succeeds, remove_channel-Succeeds,
}

-- All channels of a loop, and its poller.
pub record Loop (S : Type 0) : Type 0 where
  pub poller : Poller S
  pub channels : ℕ → Channel

pub data Op : Type 0 where
  calls : ℕ → Call → Op
  removes : ℕ → Op

abbrev pub keep : {S : Type 0} → Loop S → ℕ → Outcome S → Option (Loop S)
keep l fd (goes p c) = some (record { poller = p; channels = assign l.channels fd c })
keep l fd aborts = none

module _ (e : Epoll) where
  open e use {Set, interest}

  -- A change of the events is followed by `update()` at once.
  pub step : Loop Set → Op → Option (Loop Set)
  step l (calls fd k) = keep l fd (update_channel e l.poller (apply (l.channels fd) k))
  step l (removes fd) = keep l fd (remove_channel e l.poller (l.channels fd))

  pub run : Loop Set → List Op → Option (Loop Set)
  run l [] = some l
  run l (op ∷ ops) = elim (step l op) [ none ↦ none | some l' ↦ run l' ops ]

  pub record IsValid (l : Loop Set) : Type 0 where
    pub own_fd : (fd : ℕ) → (l.channels fd).fd ≡ fd
    pub in_step : (fd : ℕ) → InStep e l.poller (l.channels fd)

  Holds-Frames :
      (i : Index) (p q : Poller Set) (fd other events : ℕ)
      → Frames e p q fd
      → other ≢ fd
      → Holds e i p other events
      → Holds e i q other events
  Holds-Frames fresh p q fd other events f ne (a, b) =
      (rw (f.interest_same other ne) a, rw (f.channels_same other ne) b)
  Holds-Frames added p q fd other events f ne (a, b) =
      (rw (f.interest_same other ne) a, rw (f.channels_same other ne) b)
  Holds-Frames deleted p q fd other events f ne (a, b) =
      (rw (f.interest_same other ne) a, rw (f.channels_same other ne) b)

  keep-IsValid :
      (l : Loop Set) (fd : ℕ) (c : Channel) (events : ℕ) (r : Outcome Set)
      → IsValid l
      → c.fd ≡ fd
      → Succeeds e l.poller c events r
      → (l' : Loop Set) × (keep l fd r ≡ some l') × IsValid l'
  keep-IsValid l fd c events r v own s =
      let l' : Loop Set = record { poller = s.poller; channels = assign l.channels fd s.channel } in
      (
        l',
        rw s.returns,
        record {
          own_fd = λ j. elim (Bool-cases (j == fd)) [
            | inl same ↦ rw same (omega (arith, s.same_fd, (==_iff j fd).0 same))
            | inr other ↦ rw other (v.own_fd j)
          ];
          in_step = λ j. elim (Bool-cases (j == fd)) [
            | inl same ↦ rw same s.in_step
            | inr other ↦ rw other (
                Holds-Frames (l.channels j).index l.poller s.poller c.fd (l.channels j).fd
                  (l.channels j).events s.frames (ground (arith, v.own_fd j)) (v.in_step j))
          ];
        },
      )

  step-IsValid :
      (l : Loop Set) (op : Op) → IsValid l → (l' : Loop Set) × (step l op ≡ some l') × IsValid l'
  unfolding step
  step-IsValid l (calls fd k) v =
      let c = apply (l.channels fd) k in
      keep-IsValid l fd c c.events (update_channel e l.poller c) v
        (fd-apply (l.channels fd) k ∙ v.own_fd fd)
        (update_channel-Succeeds e l.poller c (l.channels fd).events
          (rw (fd-apply (l.channels fd) k, index-apply (l.channels fd) k) (v.in_step fd)))
  step-IsValid l (removes fd) v =
      keep-IsValid l fd (l.channels fd) (l.channels fd).events
        (remove_channel e l.poller (l.channels fd)) v (v.own_fd fd)
        (remove_channel-Succeeds e l.poller (l.channels fd) (v.in_step fd))

  run-IsValid :
      (l : Loop Set) (ops : List Op)
      → IsValid l
      → (l' : Loop Set) × (run l ops ≡ some l') × IsValid l'
  unfolding run
  run-IsValid l [] v = (l, refl, v)
  run-IsValid l (op ∷ ops) v =
      let (m, e₁, w) = step-IsValid l op v in
      let (l', e₂, u) = run-IsValid m ops w in (l', rw (e₁, run) e₂, u)

  pub start : Set → Loop Set
  unfolding init
  start s = record { poller = record { channels = λ _. false; set = s }; channels = init }

  -- With a kernel whose list is empty at first, and which has the memory for each entry and takes each
  -- descriptor, no sequence of changes and removals of channels makes an `epoll_ctl` fail by adding
  -- what is in the list or by changing or deleting what is not, so none aborts the process. Afterwards the kernel waits for exactly
  -- the events of each channel that is added, and for nothing on any other descriptor.
  pub run_in_step :
      (s : Set) (ops : List Op)
      → ((fd : ℕ) → interest s fd ≡ none)
      → (l : Loop Set) × (run (start s) ops ≡ some l) × IsValid l
  unfolding start
  run_in_step s ops empty =
      run-IsValid (start s) ops (record { own_fd = λ fd. refl; in_step = λ fd. (empty fd, refl) })
