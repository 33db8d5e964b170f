-- ===== src/Net/Poller.antt =====
-- framework/MyMuduo/src/EPollPoller.cc: the poller keeps the interest list of the kernel in step
-- with the channels. The kernel's list is not part of the program: it is the parameter `Epoll`.
pub mod Interest
pub mod System
use distributed_instant_mess.Base.Table.{assign}
use distributed_instant_mess.Base.{
  ℕ, ◌≡◌, ◌≢◌, Bool, true, false, Option, none, some, ◌==◌, if◌then◌else◌,
}
use distributed_instant_mess.Net.Channel.{Channel, Index, fresh, added, deleted, is_none_event}

pub data Ctl : Type 0 where
  ctl_add ctl_mod ctl_del : Ctl

-- What epoll_ctl(2) documents: adding wants a descriptor that is not in the list (EEXIST), changing
-- and deleting one that is (ENOENT). Its other errors are assumed away: that the kernel has no memory
-- (ENOMEM) or its limit is reached (ENOSPC), and that the descriptor is closed (EBADF) or one that
-- cannot be waited for (EPERM). `none` is a call that fails.
pub record Epoll : Type 1 where
  pub Set : Type 0
  pub interest : Set → ℕ → Option ℕ
  pub ctl : Ctl → ℕ → ℕ → Set → Option Set
  pub add_ok :
      (s : Set) (fd events : ℕ)
      → interest s fd ≡ none
      → (t : Set) × (ctl ctl_add fd events s ≡ some t)
        × (interest t fd ≡ some events)
        × ((other : ℕ) → other ≢ fd → interest t other ≡ interest s other)
  pub mod_ok :
      (s : Set) (fd events : ℕ) {old : ℕ}
      → interest s fd ≡ some old
      → (t : Set) × (ctl ctl_mod fd events s ≡ some t)
        × (interest t fd ≡ some events)
        × ((other : ℕ) → other ≢ fd → interest t other ≡ interest s other)
  pub del_ok :
      (s : Set) (fd events : ℕ) {old : ℕ}
      → interest s fd ≡ some old
      → (t : Set) × (ctl ctl_del fd events s ≡ some t)
        × (interest t fd ≡ none)
        × ((other : ℕ) → other ≢ fd → interest t other ≡ interest s other)

-- `channels_` maps a descriptor to its channel; a channel is known by its descriptor here.
pub record Poller (S : Type 0) : Type 0 where
  pub channels : ℕ → Bool
  pub set : S

-- What a call comes to: the poller and the channel after it, or the abort of `LOG_FATAL`.
pub data Outcome (S : Type 0) : Type 0 where
  goes : Poller S → Channel → Outcome S
  aborts : Outcome S

module _ (e : Epoll) where
  open e use {Set, ctl}

  -- `epoll_ctl` fails: a deletion is logged, all else is fatal.
  update_failed : Ctl → Poller Set → Channel → Outcome Set
  update_failed ctl_del p c = goes p c
  update_failed _ p c = aborts

  abbrev update_ended : Option Set → Ctl → Poller Set → Channel → Outcome Set
  update_ended (some t) op p c = goes (record p { set = t }) c
  update_ended none op p c = update_failed op p c

  update : Ctl → Poller Set → Channel → Outcome Set
  unfolding update_failed
  update op p c = update_ended (ctl op c.fd c.events p.set) op p c

  abbrev set_index : Channel → Index → Channel
  set_index c i = record c { index = i }

  abbrev then_index : Index → Outcome Set → Outcome Set
  then_index i (goes p c) = goes p (set_index c i)
  then_index i aborts = aborts

  update_known : Poller Set → Channel → Outcome Set
  unfolding update
  update_known p c =
      if is_none_event c then then_index deleted (update ctl_del p c) else update ctl_mod p c

  abbrev update_channel_at : Index → Poller Set → Channel → Outcome Set
  update_channel_at fresh p c =
      update ctl_add (record p { channels = assign p.channels c.fd true }) (set_index c added)
  update_channel_at deleted p c = update ctl_add p (set_index c added)
  update_channel_at added p c = update_known p c

  pub update_channel : Poller Set → Channel → Outcome Set
  unfolding update update_known
  update_channel p c = update_channel_at c.index p c

  abbrev remove_channel_at : Index → Poller Set → Channel → Outcome Set
  remove_channel_at added p c = then_index fresh (update ctl_del p c)
  remove_channel_at _ p c = goes p (set_index c fresh)

  pub remove_channel : Poller Set → Channel → Outcome Set
  unfolding update
  remove_channel p c =
      remove_channel_at c.index (record p { channels = assign p.channels c.fd false }) c
