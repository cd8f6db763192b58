-- ===== src/Poller.antt =====
-- include/net/event.h (`IOEvent`), include/base/poller.h, include/base/epollpoller.h and
-- src/base/epollpoller.cpp: the events of the file descriptors and the poller. A pointer to an
-- IOEvent is a number, `io_events` is what stands behind them. A callback and its argument are
-- numbers. `ctls` is the trace of the calls of `epoll_ctl`, the last one first; what `epoll_wait`
-- stored is an argument.
pub mod Flags
pub mod Interest
pub mod Adding
pub mod Reported
pub mod Tests
use Prim.Native.Nat.{bit_and, bit_or}
use my_rtsp_server.Prelude.{
  ℕ, zero, suc, ◌+◌, ◌-◌, ◌*◌, ◌^◌, Bool, true, false, not, ◌&&◌, ◌||◌, Option, none, some, List,
  [], ◌∷◌, leb, ◌==◌, if◌then◌else◌, ◌>>=◌, length,
}

abbrev pub event_read : ℕ
event_read = 1

abbrev pub event_write : ℕ
event_write = 2

abbrev pub event_error : ℕ
event_error = 4

pub record IoEvent : Type 0 where
  pub fd : ℕ
  pub arg : ℕ
  pub event : ℕ
  pub revent : ℕ
  pub read_cb : Option ℕ
  pub write_cb : Option ℕ
  pub error_cb : Option ℕ

abbrev pub create_new : ℕ → ℕ → IoEvent
create_new fd arg = record {
  fd = fd;
  arg = arg;
  event = 0;
  revent = 0;
  read_cb = none;
  write_cb = none;
  error_cb = none;
}

-- `m_event_ |= flag` and `m_event_ &= ~flag`.
unfoldable pub enable : ℕ → IoEvent → IoEvent
enable flag e = record e { event = bit_or e.event flag }

unfoldable pub disable : ℕ → IoEvent → IoEvent
disable flag e = record e { event = bit_and e.event (2 ^ 32 - 1 - flag) }

abbrev pub has : ℕ → ℕ → Bool
has flag event = not (bit_and event flag == 0)

abbrev pub is_none_handle : IoEvent → Bool
is_none_handle e = e.event == 0

abbrev pub is_read_handle : IoEvent → Bool
is_read_handle e = has event_read e.event

abbrev pub is_write_handle : IoEvent → Bool
is_write_handle e = has event_write e.event

abbrev pub is_error_handle : IoEvent → Bool
is_error_handle e = has event_error e.event

-- The masks of `epoll`.
abbrev pub epoll_in : ℕ
epoll_in = 0x001

abbrev pub epoll_pri : ℕ
epoll_pri = 0x002

abbrev pub epoll_out : ℕ
epoll_out = 0x004

abbrev pub epoll_err : ℕ
epoll_err = 0x008

abbrev pub epoll_rdhup : ℕ
epoll_rdhup = 0x2000

pub data Ctl : Type 0 where
  ctl_add ctl_mod : ℕ → ℕ → Ctl
  ctl_del : ℕ → Ctl

-- `m_event_map_` is an association list from descriptors to pointers.
pub record Poller : Type 0 where
  pub event_map : List (ℕ × ℕ)
  pub event_lists_size : ℕ
  pub ctls : List Ctl
  pub io_events : ℕ → IoEvent

abbrev pub init_event_list_size : ℕ
init_event_list_size = 16

unfoldable pub new : (ℕ → IoEvent) → Poller
new io_events = record {
  event_map = [];
  event_lists_size = init_event_list_size;
  ctls = [];
  io_events = io_events;
}

unfoldable pub find_event : ℕ → List (ℕ × ℕ) → Option ℕ
find_event fd [] = none
find_event fd ((k, p) ∷ m) = if k == fd then some p else find_event fd m

unfoldable pub erase_event : ℕ → List (ℕ × ℕ) → List (ℕ × ℕ)
erase_event fd [] = []
erase_event fd ((k, p) ∷ m) = if k == fd then erase_event fd m else (k, p) ∷ erase_event fd m

unfoldable pub epoll_events : IoEvent → ℕ
epoll_events e =
    bit_or
      (bit_or (if is_read_handle e then epoll_in else 0)
        (if is_write_handle e then epoll_out else 0))
      (if is_error_handle e then epoll_err else 0)

-- `resize` of the list behind an `insert`.
abbrev pub grown : ℕ → ℕ → ℕ
grown map_size size = if leb size map_size then size * 2 else size

-- What `UpdateIOEvent` does with the descriptor, from what the map has for it.
unfoldable pub update_found : Option ℕ → ℕ → ℕ → ℕ → Poller → Poller
update_found none fd mask p s = record s {
  ctls = ctl_add fd mask ∷ s.ctls;
  event_map = (fd, p) ∷ s.event_map;
  event_lists_size = grown (suc (length s.event_map)) s.event_lists_size;
}
update_found (some _) fd mask p s = record s { ctls = ctl_mod fd mask ∷ s.ctls }

unfoldable pub update_io_event : ℕ → Poller → Poller
update_io_event p s =
    let e = s.io_events p in update_found (find_event e.fd s.event_map) e.fd (epoll_events e) p s

unfoldable pub remove_found : Option ℕ → ℕ → Poller → Bool × Poller
remove_found none fd s = (false, s)
remove_found (some _) fd s =
    (true, record s { ctls = ctl_del fd ∷ s.ctls; event_map = erase_event fd s.event_map })

unfoldable pub remove_io_event : ℕ → Poller → Bool × Poller
remove_io_event p s = let fd = (s.io_events p).fd in remove_found (find_event fd s.event_map) fd s

abbrev pub set_event : ℕ → IoEvent → (ℕ → IoEvent) → ℕ → IoEvent
set_event p e io_events q = if p == q then e else io_events q

-- The part of `IOEvent::HandleEvent` for one flag, with the callback of that flag.
unfoldable pub call :
    (ℕ → ℕ → Poller → Option Poller) → Option ℕ → ℕ → IoEvent → Poller → Option Poller
call run none flag e s = some s
call run (some cb) flag e s = if has flag e.revent then run cb e.arg s else some s

-- `run` is what a callback does, given its argument.
module _ (run : ℕ → ℕ → Poller → Option Poller) where
  unfoldable pub handle_io_event : ℕ → Poller → Option Poller
  handle_io_event p s = do
    s1 ← call run (s.io_events p).read_cb event_read (s.io_events p) s
    s2 ← call run (s1.io_events p).write_cb event_write (s1.io_events p) s1
    call run (s2.io_events p).error_cb event_error (s2.io_events p) s2

  abbrev pub ret_event : ℕ → ℕ
  ret_event event =
      bit_or
        (bit_or
          (if has epoll_in event || has epoll_pri event || has epoll_rdhup event
            then event_read
            else 0)
          (if has epoll_out event then event_write else 0))
        (if has epoll_err event then event_error else 0)

  -- A round of the loop, from what the map has for the descriptor; `none`: the assert.
  unfoldable pub handle_found : Option ℕ → ℕ → Poller → Option Poller
  handle_found none event s = none
  handle_found (some p) event s = handle_io_event p (record s {
    io_events = set_event p (record (s.io_events p) { revent = ret_event event }) s.io_events;
  })

  unfoldable pub handle_all : List (ℕ × ℕ) → Poller → Option Poller
  handle_all [] s = some s
  handle_all ((fd, event) ∷ ready) s = do
    s' ← handle_found (find_event fd s.event_map) event s
    handle_all ready s'

  -- `ready` is what `epoll_wait` stored, `none` if it failed.
  unfoldable pub handle_event : Option (List (ℕ × ℕ)) → Poller → Option Poller
  handle_event none s = some s
  handle_event (some ready) s = handle_all ready s
