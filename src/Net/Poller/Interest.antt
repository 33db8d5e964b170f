-- ===== src/Net/Poller/Interest.antt =====
-- The kernel's interest list follows the channels, and no call of the poller aborts the process.
use distributed_instant_mess.Base.Table.{assign}
use distributed_instant_mess.Base.{
  ℕ, ◌≡◌, ◌≢◌, refl, true, false, none, some, arith, inl, inr, Bool-cases,
}
use distributed_instant_mess.Net.Channel.{Channel, Index, fresh, added, deleted, is_none_event}
use distributed_instant_mess.Net.Poller.{
  Epoll, Poller, Outcome, goes, update, update_known, update_channel, remove_channel,
  update_channel_at, remove_channel_at,
}

module _ (e : Epoll) where
  open e use {Set, interest}

  -- What the kernel and `channels_` hold for a channel, by its index.
  abbrev pub Holds : Index → Poller Set → ℕ → ℕ → Type 0
  Holds fresh p fd events = (interest p.set fd ≡ none) × (p.channels fd ≡ false)
  Holds added p fd events = (interest p.set fd ≡ some events) × (p.channels fd ≡ true)
  Holds deleted p fd events = (interest p.set fd ≡ none) × (p.channels fd ≡ true)

  abbrev pub InStep : Poller Set → Channel → Type 0
  InStep p c = Holds c.index p c.fd c.events

  -- Nothing changes for any other descriptor.
  pub record Frames (p q : Poller Set) (fd : ℕ) : Type 0 where
    pub interest_same : (other : ℕ) → other ≢ fd → interest q.set other ≡ interest p.set other
    pub channels_same : (other : ℕ) → other ≢ fd → q.channels other ≡ p.channels other

  -- The call comes back, with a channel that is in step and has its events.
  pub record Succeeds (p : Poller Set) (c : Channel) (events : ℕ) (r : Outcome Set) : Type 0 where
    pub poller : Poller Set
    pub channel : Channel
    pub returns : r ≡ goes poller channel
    pub in_step : InStep poller channel
    pub same_fd : channel.fd ≡ c.fd
    pub same_events : channel.events ≡ events
    pub frames : Frames p poller c.fd

  update_channel_at-Succeeds :
      (i : Index) (p : Poller Set) (c : Channel)
      → (old : ℕ) → c.index ≡ i
      → Holds i p c.fd old
      → Succeeds p c c.events (update_channel_at e i p c)
  unfolding update update_known
  update_channel_at-Succeeds fresh p c old at (out, unknown) =
      let (t, ok, there, others) = e.add_ok p.set c.fd c.events out in
      record {
        poller = record { channels = assign p.channels c.fd true; set = t };
        channel = record c { index = added };
        returns = rw ok;
        in_step = (there, ground arith);
        same_fd = refl;
        same_events = refl;
        frames = record { interest_same = others; channels_same = λ o ne. ground arith };
      }
  update_channel_at-Succeeds deleted p c old at (out, known) =
      let (t, ok, there, others) = e.add_ok p.set c.fd c.events out in
      record {
        poller = record p { set = t };
        channel = record c { index = added };
        returns = rw ok;
        in_step = (there, known);
        same_fd = refl;
        same_events = refl;
        frames = record { interest_same = others; channels_same = λ o ne. refl };
      }
  update_channel_at-Succeeds added p c old at (held, known) = elim (Bool-cases (is_none_event c)) [
    | inl empty ↦
        (let (t, ok, gone, others) = e.del_ok p.set c.fd c.events held in
          record {
            poller = record p { set = t };
            channel = record c { index = deleted };
            returns = rw (empty, ok);
            in_step = (gone, known);
            same_fd = refl;
            same_events = refl;
            frames = record { interest_same = others; channels_same = λ o ne. refl };
          })
    | inr some_events ↦
        (let (t, ok, there, others) = e.mod_ok p.set c.fd c.events held in
          record {
            poller = record p { set = t };
            channel = c;
            returns = rw (some_events, ok);
            in_step = rw at (there, known);
            same_fd = refl;
            same_events = refl;
            frames = record { interest_same = others; channels_same = λ o ne. refl };
          })
  ]

  pub update_channel-Succeeds :
      (p : Poller Set) (c : Channel) (old : ℕ)
      → Holds c.index p c.fd old
      → Succeeds p c c.events (update_channel e p c)
  unfolding update_channel
  update_channel-Succeeds p c old h = update_channel_at-Succeeds c.index p c old refl h

  remove_channel_at-Succeeds :
      (i : Index) (p : Poller Set) (c : Channel)
      → Holds i p c.fd c.events
      → Succeeds p c c.events
          (remove_channel_at e i (record p { channels = assign p.channels c.fd false }) c)
  unfolding update
  remove_channel_at-Succeeds added p c (held, known) =
      let (t, ok, gone, others) = e.del_ok p.set c.fd c.events held in
      record {
        poller = record { channels = assign p.channels c.fd false; set = t };
        channel = record c { index = fresh };
        returns = rw ok;
        in_step = (gone, ground arith);
        same_fd = refl;
        same_events = refl;
        frames = record { interest_same = others; channels_same = λ o ne. ground arith };
      }
  remove_channel_at-Succeeds fresh p c (out, unknown) = record {
    poller = record p { channels = assign p.channels c.fd false };
    channel = record c { index = fresh };
    returns = refl;
    in_step = (out, ground arith);
    same_fd = refl;
    same_events = refl;
    frames = record { interest_same = λ o ne. refl; channels_same = λ o ne. ground arith };
  }
  remove_channel_at-Succeeds deleted p c (out, known) = record {
    poller = record p { channels = assign p.channels c.fd false };
    channel = record c { index = fresh };
    returns = refl;
    in_step = (out, ground arith);
    same_fd = refl;
    same_events = refl;
    frames = record { interest_same = λ o ne. refl; channels_same = λ o ne. ground arith };
  }

  pub remove_channel-Succeeds :
      (p : Poller Set) (c : Channel) → InStep p c → Succeeds p c c.events (remove_channel e p c)
  unfolding remove_channel
  remove_channel-Succeeds p c h = remove_channel_at-Succeeds c.index p c h
