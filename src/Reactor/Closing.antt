-- ===== src/Reactor/Closing.antt =====
-- reactor/mod.rs: the descriptors of a `Reactor`.
pub mod Setup
use coreshift_lowlevel.Prelude.{
  ℕ, zero, suc, ◌+◌, refl, ℤ, pos, negsuc, Bool, false, ◌==◌, arith, Option, none, some, ◌%◌, ◌≡◌,
  List, [], Bool-cases, inl, inr, ltb,
}
use coreshift_lowlevel.Os.{
  pure, epoll_create1, epoll_ctl_add, epoll_ctl_del, EpollEvent, last_os_error,
}
use coreshift_lowlevel.Os.Steps.{Steps, Steps-pure, Steps-perform, Steps-bind, Steps-syscall_ret}
use coreshift_lowlevel.Os.Balance.{
  IsNeutral, is_fd, held_ok, Balanced, Balanced-bind, Balanced-then, Balanced-call, Balanced-from,
  Balanced-done, Balanced-Steps,
}
use coreshift_lowlevel.Error.{ok, syscall_ret, ◌>>?◌}
use coreshift_lowlevel.Fd.{Fd, raw}
use coreshift_lowlevel.Fd.Closing.{held_opt, Balanced-close, Balanced-drop_fd}
use coreshift_lowlevel.Reactor
use coreshift_lowlevel.Reactor.{
  Reactor, Token, cloexec, add_with_token, close_epfd, drop_old, drop_reactor, waited, two_64,
}

abbrev pub held_reactor : ℕ → Reactor → ℕ
held_reactor x reactor = is_fd x reactor.epfd + held_opt x reactor.signal_fd

-- What `wait` makes of its answer has the descriptors of the reactor.
pub held_waited :
    (x : ℕ) (reactor : Reactor) (ret : ℤ) (ready : List EpollEvent) (e : ℕ)
    → held_reactor x (waited reactor ret ready e).0 ≡ held_reactor x reactor
unfolding waited
held_waited x reactor (pos n) ready e = elim (Bool-cases (ltb 0 n)) [
  | inl t ↦ rw t refl
  | inr f ↦ rw f refl
]
held_waited x reactor (negsuc n) ready e = refl

-- The reactor that `new` makes of a descriptor.
abbrev fresh : ℤ → Reactor
fresh epfd = record {
  epfd = epfd;
  next_token = 1;
  events_buf = record { items = []; capacity = 64 };
  signal_fd = none;
  sigchld_token = none;
  inotify_token = none;
}

Neutral-add_with_token :
    (reactor : Reactor) (fd : ℤ) (token : Token) (readable writable : Bool)
    → Steps IsNeutral (add_with_token reactor fd token readable writable)
unfolding add_with_token
Neutral-add_with_token reactor fd token readable writable =
    Steps-bind (Steps-perform (epoll_ctl_add reactor.epfd fd _) tt)
      (λ r. Steps-syscall_ret r.ret "epoll_ctl_add")

pub Neutral-del : (reactor : Reactor) (fd : Fd) → Steps IsNeutral (Reactor.del reactor fd)
unfolding Reactor.del
Neutral-del reactor fd =
    Steps-bind (Steps-perform (epoll_ctl_del reactor.epfd (raw fd)) tt) (λ _. Steps-pure)

module _ {x : ℕ} where
  made :
      (ret : ℤ) (k : ℕ)
      → Balanced x
          (is_fd x ret + k)
          (syscall_ret ret "epoll_create1" >>? λ _. pure (ok (fresh ret)))
          (held_ok (λ r. held_reactor x r + k) k)
  unfolding syscall_ret last_os_error
  made (pos n) k = Balanced-done (omega arith)
  made (negsuc zero) k = record { run = λ s h. (omega arith, omega arith, h) }
  made (negsuc (suc n)) k =
      let e : (suc n == 0) ≡ false = ground arith in rw e (Balanced-done (omega arith))

  pub Balanced-new_reactor :
      (k : ℕ) → Balanced x k Reactor.new (held_ok (λ r. held_reactor x r + k) k)
  unfolding Reactor.new
  Balanced-new_reactor k = Balanced-call (epoll_create1 cloexec) refl (λ a h. made a.ret k)

  pub Balanced-add :
      (reactor : Reactor) (fd : Fd) (readable writable : Bool) (k : ℕ)
      → Balanced x
          (held_reactor x reactor + k)
          (Reactor.add reactor fd readable writable)
          (λ p. held_reactor x p.0 + k)
  unfolding Reactor.add
  Balanced-add reactor fd readable writable k =
      Balanced-bind
        (Balanced-Steps (held_reactor x reactor + k) (
          Neutral-add_with_token (record reactor { next_token = (reactor.next_token + 1) % two_64 })
            (raw fd) (record { val = reactor.next_token }) readable writable))
        (λ r. Balanced-done refl)

  Balanced-close_epfd : (fd : ℤ) (k : ℕ) → Balanced x (is_fd x fd + k) (close_epfd fd) (λ _. k)
  unfolding close_epfd
  Balanced-close_epfd (pos n) k = Balanced-then (Balanced-close (pos n) k) (Balanced-done refl)
  Balanced-close_epfd (negsuc n) k = Balanced-done (omega arith)

  Balanced-drop_old :
      (fd : Option Fd) (k : ℕ) → Balanced x (held_opt x fd + k) (drop_old fd) (λ _. k)
  Balanced-drop_old none k = Balanced-done (omega arith)
  Balanced-drop_old (some fd) k = Balanced-drop_fd fd k

  pub Balanced-drop_reactor :
      (reactor : Reactor) (k : ℕ)
      → Balanced x (held_reactor x reactor + k) (drop_reactor reactor) (λ _. k)
  unfolding drop_reactor
  Balanced-drop_reactor reactor k = Balanced-from (omega arith) (
      Balanced-then (Balanced-close_epfd reactor.epfd (held_opt x reactor.signal_fd + k))
        (Balanced-drop_old reactor.signal_fd k))
