-- ===== src/Net/Channel.antt =====
-- framework/MyMuduo/src/include/Channel.h and framework/MyMuduo/src/Channel.cc: a descriptor, the
-- events that it waits for, and the callbacks that an event runs.
pub mod Events
use Prim.Native.Nat.{bit_and, bit_or}
use distributed_instant_mess.Base.{
  ℕ, ◌-◌, ◌^◌, Bool, true, false, not, ◌&&◌, List, [], ◌∷◌, ◌++◌, ◌==◌, if◌then◌else◌,
}

-- `index_`: whether the poller knows the channel. The numbers -1, 1 and 2 of EPollPoller.cc.
pub data Index : Type 0 where
  fresh added deleted : Index

pub record Channel : Type 0 where
  pub fd : ℕ
  pub events : ℕ
  pub revents : ℕ
  pub index : Index
  pub tied : Bool

-- The bits of <sys/epoll.h>.
abbrev pub epoll_in : ℕ
epoll_in = 0x001

abbrev pub epoll_pri : ℕ
epoll_pri = 0x002

abbrev pub epoll_out : ℕ
epoll_out = 0x004

abbrev pub epoll_err : ℕ
epoll_err = 0x008

abbrev pub epoll_hup : ℕ
epoll_hup = 0x010

abbrev pub none_event : ℕ
none_event = 0

abbrev pub read_event : ℕ
read_event = bit_or epoll_in epoll_pri

abbrev pub write_event : ℕ
write_event = epoll_out

-- `~x` of a 32-bit `int`.
abbrev complement : ℕ → ℕ
complement x = 2 ^ 32 - 1 - x

unfoldable pub init : ℕ → Channel
init fd = record { fd = fd; events = 0; revents = 0; index = fresh; tied = false }

unfoldable pub tie : Channel → Channel
tie c = record c { tied = true }

unfoldable pub enable_reading : Channel → Channel
enable_reading c = record c { events = bit_or c.events read_event }

unfoldable pub enable_writing : Channel → Channel
enable_writing c = record c { events = bit_or c.events write_event }

unfoldable pub disable_reading : Channel → Channel
disable_reading c = record c { events = bit_and c.events (complement read_event) }

unfoldable pub disable_writing : Channel → Channel
disable_writing c = record c { events = bit_and c.events (complement write_event) }

unfoldable pub disable_all : Channel → Channel
disable_all c = record c { events = none_event }

unfoldable pub is_none_event : Channel → Bool
is_none_event c = c.events == none_event

-- A mask as a condition: some bit is set.
abbrev pub has : ℕ → ℕ → Bool
has events mask = not (bit_and events mask == 0)

unfoldable pub is_writing : Channel → Bool
is_writing c = has c.events write_event

unfoldable pub is_reading : Channel → Bool
is_reading c = has c.events read_event

pub data Callback : Type 0 where
  close_callback error_callback read_callback write_callback : Callback

-- Which callbacks the owner has set.
pub record Callbacks : Type 0 where
  pub close : Bool
  pub error : Bool
  pub read : Bool
  pub write : Bool

abbrev when : Bool → Callback → List Callback
when b c = if b then c ∷ [] else []

-- The callbacks that an event runs, in order.
unfoldable pub handle_event_with_guard : Callbacks → Channel → List Callback
handle_event_with_guard k c =
    when (has c.revents epoll_hup && not (has c.revents epoll_in) && k.close) close_callback
    ++ (when (has c.revents epoll_err && k.error) error_callback
        ++ (when (has c.revents (bit_or epoll_in epoll_pri) && k.read) read_callback
            ++ when (has c.revents epoll_out && k.write) write_callback))

-- `alive`: the object that the channel is tied to is still there.
unfoldable pub handle_event : Callbacks → Bool → Channel → List Callback
handle_event k alive c =
    if c.tied
    then (if alive then handle_event_with_guard k c else [])
    else handle_event_with_guard k c
