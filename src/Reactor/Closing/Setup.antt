-- ===== src/Reactor/Closing/Setup.antt =====
-- reactor/mod.rs: the descriptors of `setup_signalfd` and `setup_inotify`.
use coreshift_lowlevel.Prelude.{
  ℕ, zero, suc, ◌+◌, ◌≡◌, refl, ℤ, pos, negsuc, minus_one, true, false, ◌==◌, arith, String,
  replicate, some, List, bit_or,
}
use coreshift_lowlevel.Os.{
  Sys, Post, Post-mono, IsHonest, Io, pure, perform, ◌>>=◌, ◌>>◌, inotify_init1, signalfd,
  sigprocmask, last_os_error,
}
use coreshift_lowlevel.Os.Steps.{Steps-perform}
use coreshift_lowlevel.Os.Balance.{
  opened, closed, is_fd, held_ok, Settled, Balanced, Balanced-bind, Balanced-then, Balanced-call,
  Balanced-from, Balanced-done, Balanced-match, Balanced-Steps,
}
use coreshift_lowlevel.Error.{Result, ok, err, syscall_ret, ◌>>?◌}
use coreshift_lowlevel.Fd
use coreshift_lowlevel.Fd.{Fd}
use coreshift_lowlevel.Fd.Closing.{held_fd, Balanced-drop_fd, Balanced-syscall_ret}
use coreshift_lowlevel.Reactor.{
  Reactor, Token, add_or_drop, setup_inotify, setup_signalfd, drop_old, drop_reactor, nonblock,
  cloexec, sigchld, sig_block,
}
use coreshift_lowlevel.Reactor.Closing.{
  held_reactor, Balanced-add, Balanced-drop_old, Balanced-drop_reactor,
}

-- What a result holds of a descriptor.
abbrev pub held_result : ℕ → Result Fd → ℕ
held_result x (ok fd) = is_fd x fd.raw_fd
held_result x (err e) = 0

-- The descriptor of a registration: kept, or closed.
abbrev pub held_token : ℕ → Fd → Result Token → ℕ
held_token x fd (ok token) = is_fd x fd.raw_fd
held_token x fd (err e) = 0

module _ {x : ℕ} where
  Balanced-wrap :
      (ret : ℤ) (op what : String) (k : ℕ)
      → Balanced x
          (is_fd x ret + k)
          (syscall_ret ret op >>? λ _. Fd.new ret what)
          (λ r. held_result x r + k)
  unfolding syscall_ret last_os_error Fd.new
  Balanced-wrap (pos n) op what k = Balanced-done refl
  Balanced-wrap (negsuc zero) op what k = record { run = λ s h. (omega arith, omega arith, h) }
  Balanced-wrap (negsuc (suc n)) op what k =
      let e : (suc n == 0) ≡ false = ground arith in
      rw e (record { run = λ s h. (omega arith, omega arith, h) })

  Balanced-add_or_drop :
      (reactor : Reactor) (fd : Fd) (k : ℕ)
      → Balanced x
          (held_fd x fd + (held_reactor x reactor + k))
          (add_or_drop reactor fd)
          (λ p. held_token x fd p.1 + (held_reactor x p.0 + k))
  unfolding add_or_drop
  Balanced-add_or_drop reactor fd k =
      Balanced-bind
        (Balanced-from (omega arith) (Balanced-add reactor fd true false (held_fd x fd + k)))
        (λ p. Balanced-from (omega arith) (
          Balanced-match (λ _. held_fd x fd + (held_reactor x p.0 + k)) p.1
            (λ token. Balanced-done refl)
            (λ e.
              Balanced-then (Balanced-drop_fd fd (held_reactor x p.0 + k))
                (Balanced-done (omega arith)))))

  pub Balanced-setup_inotify :
      (reactor : Reactor) (k : ℕ)
      → Balanced x
          (held_reactor x reactor + k)
          (setup_inotify reactor)
          (λ p. held_result x p.1 + (held_reactor x p.0 + k))
  unfolding setup_inotify
  Balanced-setup_inotify reactor k =
      let n = held_reactor x reactor + k in
      Balanced-call (inotify_init1 (bit_or cloexec nonblock)) refl (λ a h.
        Balanced-bind (Balanced-wrap a.ret "inotify_init1" "inotify" n) (λ r.
          Balanced-match (λ r. held_result x r + n) r
            (λ fd. Balanced-bind (Balanced-add_or_drop reactor fd k) (λ p.
              Balanced-match (λ t. held_token x fd t + (held_reactor x p.0 + k)) p.1
                (λ token. Balanced-done refl) (λ e. Balanced-done refl)))
            (λ e. Balanced-done refl)))

  -- The signal descriptor is made where the mask was set.
  Balanced-made_signalfd :
      (n : ℕ) (mask : List ℕ) (flags : ℕ)
      → Balanced x n
          (perform (signalfd minus_one mask flags) >>= λ sfd.
            syscall_ret sfd.ret "signalfd" >>? λ _. Fd.new sfd.ret "signalfd")
          (λ r. held_result x r + n)
  Balanced-made_signalfd n mask flags =
      Balanced-call (signalfd minus_one mask flags) refl
        (λ a h. Balanced-wrap a.ret "signalfd" "signalfd" n)

  -- A new signal descriptor takes the old one's place.
  Balanced-put :
      (reactor : Reactor) (fd : Fd) (token : Token) (k : ℕ)
      → Balanced x
          (held_fd x fd + (held_reactor x reactor + k))
          (drop_old reactor.signal_fd
            >> pure {A = Reactor × Result (Unit {0})}
                (record reactor { signal_fd = some fd; sigchld_token = some token }, ok tt))
          (λ p. held_reactor x p.0 + k)
  Balanced-put reactor fd token k =
      Balanced-then
        (Balanced-from (omega arith)
          (Balanced-drop_old reactor.signal_fd (held_fd x fd + (is_fd x reactor.epfd + k))))
        (Balanced-from (omega arith) (Balanced-done refl))

  Balanced-held_signalfd :
      (reactor : Reactor) (fd : Fd) (k : ℕ)
      → Balanced x
          (held_fd x fd + (held_reactor x reactor + k))
          (add_or_drop reactor fd >>= λ (reactor', t).
            elim t as (λ _. Io (Reactor × Result (Unit {0}))) [
              | err e ↦ pure (reactor', err e)
              | ok token ↦
                  drop_old reactor'.signal_fd
                  >> pure
                      (record reactor' { signal_fd = some fd; sigchld_token = some token }, ok tt)
            ])
          (λ p. held_reactor x p.0 + k)
  Balanced-held_signalfd reactor fd k = Balanced-bind (Balanced-add_or_drop reactor fd k) (λ p.
      Balanced-match (λ t. held_token x fd t + (held_reactor x p.0 + k)) p.1
        (λ token. Balanced-put p.0 fd token k) (λ e. Balanced-done (omega arith)))

  pub Balanced-setup_signalfd :
      (reactor : Reactor) (k : ℕ)
      → Balanced x
          (held_reactor x reactor + k)
          (setup_signalfd reactor)
          (λ p. held_reactor x p.0 + k)
  unfolding setup_signalfd
  Balanced-setup_signalfd reactor k =
      let n = held_reactor x reactor + k in
      let mask = replicate 1 sigchld in
      Balanced-bind (Balanced-Steps n (Steps-perform (sigprocmask sig_block mask) tt)) (λ blocked.
        Balanced-bind
          (Balanced-bind (Balanced-syscall_ret blocked.ret "sigprocmask" n) (λ r.
            Balanced-match (held_ok (λ _. n) n) r
              (λ _. Balanced-made_signalfd n mask (bit_or nonblock cloexec))
              (λ e. Balanced-done (omega arith))))
          (λ r.
            Balanced-match (λ r. held_result x r + n) r (λ fd. Balanced-held_signalfd reactor fd k)
              (λ e. Balanced-done (omega arith))))

-- With an honest kernel, where one of these operations returns, a descriptor x was opened as often as
-- it was closed and changed hands: after `setup_signalfd`, with a token or an error, the reactor
-- holds it; after `setup_inotify` the reactor or the returned descriptor does; after the drop of the
-- reactor nothing holds what the reactor held. Each returns, ends with its process or waits in a call.
pub reactor_owns :
    (reactor : Reactor) (x : ℕ) (s : Sys)
    → IsHonest s.script
    → Post
        (λ p s'.
          opened x s'.log + closed x s.log + held_reactor x reactor
          ≡ opened x s.log + closed x s'.log + held_reactor x p.0)
        (λ _. Unit)
        (setup_signalfd reactor s)
      × Post
          (λ p s'.
            opened x s'.log + closed x s.log + held_reactor x reactor
            ≡ opened x s.log + closed x s'.log + (held_result x p.1 + held_reactor x p.0))
          (λ _. Unit)
          (setup_inotify reactor s)
      × Post
          (λ _ s'.
            opened x s'.log + closed x s.log + held_reactor x reactor
            ≡ opened x s.log + closed x s'.log)
          (λ _. Unit)
          (drop_reactor reactor s)
reactor_owns reactor x s h = (
  Post-mono (λ p. Settled x (held_reactor x reactor + 0) s (held_reactor x p.0 + 0)) _ (λ _. Unit)
      (λ _. Unit) (setup_signalfd reactor s) (λ p s' g. omega (arith, g.0)) (λ _ _. tt)
      ((Balanced-setup_signalfd reactor 0).run s h),
  Post-mono
      (λ p. Settled x (held_reactor x reactor + 0) s (held_result x p.1 + (held_reactor x p.0 + 0)))
      _ (λ _. Unit) (λ _. Unit) (setup_inotify reactor s) (λ p s' g. omega (arith, g.0)) (λ _ _. tt)
      ((Balanced-setup_inotify reactor 0).run s h),
  Post-mono (λ _. Settled x (held_reactor x reactor + 0) s 0) _ (λ _. Unit) (λ _. Unit)
      (drop_reactor reactor s) (λ _ s' g. omega (arith, g.0)) (λ _ _. tt)
      ((Balanced-drop_reactor reactor 0).run s h),
)
