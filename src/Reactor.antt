-- ===== src/Reactor.antt =====
-- reactor/mod.rs: the epoll reactor.
pub mod Waiting
pub mod Registering
pub mod Closing
use coreshift_lowlevel.Prelude.{
  ℕ, ◌+◌, ◌-◌, ◌*◌, ◌%◌, max, List, [], map, ℤ, pos, negsuc, minus_one, Bool, true, false, not,
  ◌||◌, Option, none, some, ltb, ◌==◌, if◌then◌else◌, length, take, replicate, bit_and, bit_or,
}
use coreshift_lowlevel.Os.{
  Io, pure, ◌>>=◌, ◌>>◌, perform, last_os_error, Round, continue, break, loop, EpollEvent,
  epoll_create1, epoll_ctl_add, epoll_ctl_del, epoll_wait, inotify_init1, sigprocmask, signalfd,
  close,
}
use coreshift_lowlevel.Error.{Result, ok, err, sys, syscall_ret, ◌>>?◌}
use coreshift_lowlevel.Fd
use coreshift_lowlevel.Fd.{Fd, raw, read_slice, drop_fd, eintr}

-- The constants of libc for Linux.
abbrev pub epollin : ℕ
epollin = 0x1

abbrev pub epollout : ℕ
epollout = 0x4

abbrev pub epollerr : ℕ
epollerr = 0x8

abbrev pub epollhup : ℕ
epollhup = 0x10

abbrev pub epollet : ℕ
epollet = 0x80000000

abbrev pub cloexec : ℕ
cloexec = 0x80000

abbrev pub nonblock : ℕ
nonblock = 0x800

abbrev pub sig_block : ℕ
sig_block = 0

abbrev pub sigchld : ℕ
sigchld = 17

abbrev pub siginfo_size : ℕ
siginfo_size = 128

pub record Token : Type 0 where
  pub val : ℕ

pub record Event : Type 0 where
  pub token : Token
  pub readable : Bool
  pub writable : Bool
  pub error : Bool

-- A `Vec<epoll_event>` with the room that it has.
pub record EventsBuf : Type 0 where
  pub items : List EpollEvent
  pub capacity : ℕ

pub record Reactor : Type 0 where
  pub epfd : ℤ
  pub next_token : ℕ
  pub events_buf : EventsBuf
  pub signal_fd : Option Fd
  pub sigchld_token : Option Token
  pub inotify_token : Option Token

abbrev pub two_64 : ℕ
two_64 = 18446744073709551616

unfoldable pub new : Io (Result Reactor)
unfolding perform syscall_ret
new = do
  epfd ← perform (epoll_create1 cloexec)
  syscall_ret epfd.ret "epoll_create1" >>? λ _. pure (
      ok (record {
        epfd = epfd.ret;
        next_token = 1;
        events_buf = record { items = []; capacity = 64 };
        signal_fd = none;
        sigchld_token = none;
        inotify_token = none;
      }))

-- `events |= flag` under a test.
abbrev pub with_flag : Bool → ℕ → ℕ → ℕ
with_flag wanted flag events = if wanted then bit_or events flag else events

unfoldable pub add_with_token : Reactor → ℤ → Token → Bool → Bool → Io (Result (Unit {0}))
unfolding perform syscall_ret
add_with_token reactor raw_fd token readable writable = do
  let events = with_flag writable epollout (with_flag readable epollin epollet)
  r ← perform (epoll_ctl_add reactor.epfd raw_fd (record { events = events; u64 = token.val }))
  syscall_ret r.ret "epoll_ctl_add"

-- The counter moves on also where the registration fails; it wraps as a `u64`.
unfoldable pub add : Reactor → Fd → Bool → Bool → Io (Reactor × Result Token)
unfolding add_with_token
add reactor fd readable writable = do
  let token : Token = record { val = reactor.next_token }
  let reactor' = record reactor { next_token = (reactor.next_token + 1) % two_64 }
  r ← add_with_token reactor' (raw fd) token readable writable
  pure (reactor', elim r [ ok _ ↦ ok token | err e ↦ err e ])

unfoldable pub del : Reactor → Fd → Io (Unit {0})
unfolding perform
del reactor fd = perform (epoll_ctl_del reactor.epfd (raw fd)) >> pure tt

-- A descriptor that is registered and kept, or closed where that fails.
unfoldable pub add_or_drop : Reactor → Fd → Io (Reactor × Result Token)
unfolding add drop_fd
add_or_drop reactor fd = do
  (reactor', r) ← add reactor fd true false
  elim r [ ok token ↦ pure (reactor', ok token) | err e ↦ drop_fd fd >> pure (reactor', err e) ]

unfoldable pub setup_inotify : Reactor → Io (Reactor × Result Fd)
unfolding perform syscall_ret Fd.new add_or_drop
setup_inotify reactor = do
  fd ← perform (inotify_init1 (bit_or cloexec nonblock))
  r ← syscall_ret fd.ret "inotify_init1" >>? λ _. Fd.new fd.ret "inotify"
  elim r [
    | err e ↦ pure (reactor, err e)
    | ok fd_obj ↦ do
      (reactor', t) ← add_or_drop reactor fd_obj
      elim t [
        | err e ↦ pure (reactor', err e)
        | ok token ↦ pure (record reactor' { inotify_token = some token }, ok fd_obj)
      ]
  ]

-- Overwriting an `Option<Fd>` drops what it held.
abbrev pub drop_old : Option Fd → Io (Unit {0})
drop_old none = pure tt
drop_old (some fd) = drop_fd fd

unfoldable pub setup_signalfd : Reactor → Io (Reactor × Result (Unit {0}))
unfolding perform syscall_ret Fd.new add_or_drop
setup_signalfd reactor = do
  let mask : List ℕ = replicate 1 sigchld
  blocked ← perform (sigprocmask sig_block mask)
  r ← syscall_ret blocked.ret "sigprocmask" >>? λ _. do
    sfd ← perform (signalfd minus_one mask (bit_or nonblock cloexec))
    syscall_ret sfd.ret "signalfd" >>? λ _. Fd.new sfd.ret "signalfd"
  elim r [
    | err e ↦ pure (reactor, err e)
    | ok fd ↦ do
      (reactor', t) ← add_or_drop reactor fd
      elim t [
        | err e ↦ pure (reactor', err e)
        | ok token ↦ do
          drop_old reactor'.signal_fd
          pure (record reactor' { signal_fd = some fd; sigchld_token = some token }, ok tt)
      ]
  ]

unfoldable pub drain_round : Fd → List ℕ → Io (Round (List ℕ) (Unit {0}))
unfolding read_slice
drain_round fd buf = do
  (r, buf') ← read_slice fd buf
  pure (elim r [
    | ok o ↦ elim o [
      | some n ↦ if ltb n (length buf') then break tt else continue buf'
      | none ↦ break tt
    ]
    | err e ↦ break tt
  ])

unfoldable pub drain_signalfd : Reactor → Io (Unit {0})
unfolding loop drain_round
drain_signalfd reactor = elim reactor.signal_fd [
  | some fd ↦ loop (drain_round fd) (replicate siginfo_size 0)
  | none ↦ pure tt
]

-- `n as i32` for a `usize`.
abbrev pub as_i32 : ℕ → ℤ
as_i32 n =
    let low = n % 4294967296 in if ltb low 2147483648 then pos low else negsuc (4294967295 - low)

-- `Vec::reserve`: room for as many more than the vector holds, and at least twice the old room.
abbrev pub reserve : ℕ → EventsBuf → EventsBuf
reserve additional buf =
    if ltb (buf.capacity - length buf.items) additional
    then record buf { capacity = max (2 * buf.capacity) (length buf.items + additional) }
    else buf

unfoldable pub ensure_room : ℕ → EventsBuf → EventsBuf
ensure_room max_events buf =
    if ltb buf.capacity max_events then reserve (max_events - length buf.items) buf else buf

abbrev pub has : ℕ → ℕ → Bool
has events flags = not (bit_and events flags == 0)

unfoldable pub decode_event : EpollEvent → Event
decode_event ev =
    let is_read = has ev.events epollin in
    let is_write = has ev.events epollout in
    let is_err = has ev.events (bit_or epollerr epollhup) in
    record {
      token = record { val = ev.u64 };
      readable = is_read || is_err;
      writable = is_write || is_err;
      error = is_err;
    }

-- What `wait` makes of a number of events, with `buffer` cleared before.
unfoldable pub waited : Reactor → ℤ → List EpollEvent → ℕ → Reactor × List Event × Result ℕ
unfolding decode_event sys
waited reactor (pos n) ready e =
    if ltb 0 n
    then (let items = take n ready in
        (
          record reactor {
            events_buf = record { items = items; capacity = reactor.events_buf.capacity };
          },
          map decode_event items,
          ok n,
        ))
    else (reactor, [], ok 0)
waited reactor (negsuc n) ready e =
    (reactor, [], if e == eintr then ok 0 else err (sys (pos e) "epoll_wait"))

-- The room of the caller's own vector makes no difference, so `buffer` is its items alone.
unfoldable pub wait : Reactor → ℕ → ℤ → Io (Reactor × List Event × Result ℕ)
unfolding perform last_os_error ensure_room waited
wait reactor max_events timeout = if max_events == 0 then pure (reactor, [], ok 0) else (do
  let reactor' = record reactor { events_buf = ensure_room max_events reactor.events_buf }
  a ← perform (epoll_wait reactor'.epfd (as_i32 max_events) timeout)
  e ← last_os_error
  pure (waited reactor' a.ret a.ready e))

unfoldable pub close_epfd : ℤ → Io (Unit {0})
unfolding perform
close_epfd (pos n) = perform (close (pos n)) >> pure tt
close_epfd (negsuc n) = pure tt

-- `impl Drop for Reactor`, and after it the field that is dropped in its turn.
unfoldable pub drop_reactor : Reactor → Io (Unit {0})
unfolding close_epfd drop_fd
drop_reactor reactor = close_epfd reactor.epfd >> drop_old reactor.signal_fd
