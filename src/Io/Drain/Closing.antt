-- ===== src/Io/Drain/Closing.antt =====
-- io/drain.rs: the descriptors of a `DrainState`.
use coreshift_lowlevel.Prelude.{
  ℕ, ◌+◌, ◌-◌, ◌≡◌, refl, List, Option, none, some, Bool, true, false, arith,
}
use coreshift_lowlevel.Os.{Io, pure, ◌>>◌}
use coreshift_lowlevel.Os.Balance.{
  held_ok, Balanced, Balanced-pure, Balanced-bind, Balanced-then, Balanced-eq, Balanced-case,
  Balanced-from, Balanced-done, Balanced-match, Balanced-Steps,
}
use coreshift_lowlevel.Error.{Result, ok, err, SysError}
use coreshift_lowlevel.Fd.{Fd, drop_fd}
use coreshift_lowlevel.Fd.Closing.{held_fd, held_opt, Balanced-drop_fd, Balanced-set_nonblock}
use coreshift_lowlevel.Reactor.{Reactor, Token}
use coreshift_lowlevel.Reactor.Closing.{held_reactor, Balanced-add, Neutral-del}
use coreshift_lowlevel.Io.Buffer.{EarlyExit}
use coreshift_lowlevel.Io.Drain
use coreshift_lowlevel.Io.Drain.{
  DrainState, FdSlot, unregistered, drop_opt, drop_slot, nonblock_opt, kept, unkept, register_slot,
  register_with_reactor, remove_slot, drop_stdout, drop_stderr, drop_stdin,
}

module _ (x : ℕ) where
  abbrev pub held_slot : Option FdSlot → ℕ
  held_slot none = 0
  held_slot (some slot) = held_fd x slot.fd

  abbrev pub held_drain : DrainState → ℕ
  held_drain d = held_slot d.stdout_slot + (held_slot d.stderr_slot + held_slot d.stdin_slot)

held_unregistered : (x : ℕ) (fd : Option Fd) → held_slot x (unregistered fd) ≡ held_opt x fd
held_unregistered x none = refl
held_unregistered x (some fd) = refl

held_kept :
    (x : ℕ) (fd : Option Fd) (buf : Option (List ℕ))
    → held_opt x (kept fd buf) + held_opt x (unkept fd buf) ≡ held_opt x fd
held_kept x fd none = omega arith
held_kept x fd (some buf) = omega arith

module _ {x : ℕ} where
  pub Balanced-drop_opt :
      (fd : Option Fd) (k : ℕ) → Balanced x (held_opt x fd + k) (drop_opt fd) (λ _. k)
  Balanced-drop_opt none k = Balanced-eq (omega arith) (λ _. refl) (Balanced-pure {held = λ _. k})
  Balanced-drop_opt (some fd) k = Balanced-drop_fd fd k

  pub Balanced-drop_slot :
      (slot : Option FdSlot) (k : ℕ) → Balanced x (held_slot x slot + k) (drop_slot slot) (λ _. k)
  Balanced-drop_slot none k = Balanced-eq (omega arith) (λ _. refl) (Balanced-pure {held = λ _. k})
  Balanced-drop_slot (some slot) k = Balanced-drop_fd slot.fd k

  Balanced-nonblock_opt : (fd : Option Fd) (n : ℕ) → Balanced x n (nonblock_opt fd) (λ _. n)
  Balanced-nonblock_opt none n = Balanced-pure {held = λ _. n}
  Balanced-nonblock_opt (some fd) n = Balanced-set_nonblock fd n

  pub drop_opts :
      (a b c : Option Fd) (k : ℕ)
      → Balanced x
          (held_opt x a + (held_opt x b + (held_opt x c + k)))
          (drop_opt a >> drop_opt b >> drop_opt c)
          (λ _. k)
  drop_opts a b c k =
      Balanced-then
        (Balanced-then (Balanced-drop_opt a (held_opt x b + (held_opt x c + k)))
          (Balanced-drop_opt b (held_opt x c + k)))
        (Balanced-drop_opt c k)

  -- All that was handed in is in the drain, or closed where there is none.
  pub Balanced-new_drain :
      (stdin_fd : Option Fd) (stdin_buf : Option (List ℕ)) (stdout_fd stderr_fd : Option Fd)
      (limit : ℕ) (early_exit : EarlyExit) (k : ℕ)
      → Balanced x
          (held_opt x stdin_fd + held_opt x stdout_fd + held_opt x stderr_fd + k)
          (Drain.new stdin_fd stdin_buf stdout_fd stderr_fd limit early_exit)
          (held_ok (λ d. held_drain x d + k) k)
  unfolding Drain.new
  Balanced-new_drain stdin_fd stdin_buf stdout_fd stderr_fd limit early_exit k =
      Balanced-case (Balanced-nonblock_opt kept_fd n)
        (λ _.
          Balanced-case (Balanced-nonblock_opt stdout_fd n)
            (λ _.
              Balanced-case (Balanced-nonblock_opt stderr_fd n)
                (λ _.
                  Balanced-then
                    (Balanced-from (omega (arith, split))
                      (Balanced-drop_opt unkept_fd (n - held_opt x unkept_fd)))
                    (Balanced-done (
                      omega (
                        arith,
                        split,
                        held_unregistered x kept_fd,
                        held_unregistered x stdout_fd,
                        held_unregistered x stderr_fd,
                      ))))
                (λ e. failing stdout_fd kept_fd stderr_fd unkept_fd e (omega (arith, split))))
            (λ e. failing kept_fd stderr_fd stdout_fd unkept_fd e (omega (arith, split))))
        (λ _.
          Balanced-from (omega arith)
            (Balanced-then (drop_opts stderr_fd stdout_fd stdin_fd k) (Balanced-done refl)))
    where
      kept_fd : Option Fd
      kept_fd = kept stdin_fd stdin_buf

      unkept_fd : Option Fd
      unkept_fd = unkept stdin_fd stdin_buf

      n : ℕ
      n = held_opt x stdin_fd + held_opt x stdout_fd + held_opt x stderr_fd + k

      split : held_opt x kept_fd + held_opt x unkept_fd ≡ held_opt x stdin_fd
      split = held_kept x stdin_fd stdin_buf

      failing :
          (a b c d : Option Fd) (err_is : SysError)
          → n ≡ held_opt x a + (held_opt x b + (held_opt x c + (held_opt x d + k)))
          → Balanced x n
              (drop_opt a >> drop_opt b >> drop_opt c >> drop_opt d >> pure (err err_is))
              (held_ok (λ d. held_drain x d + k) k)
      failing a b c d err_is eq = Balanced-from eq (
          Balanced-then (Balanced-then (drop_opts a b c (held_opt x d + k)) (Balanced-drop_opt d k))
            (Balanced-done refl))

-- The slots and the reactor, registered or not.
module _ {x : ℕ} where
  Balanced-register_slot :
      (slot : Option FdSlot) (reactor : Reactor) (readable writable : Bool) (k : ℕ)
      → Balanced x
          (held_slot x slot + (held_reactor x reactor + k))
          (register_slot slot reactor readable writable)
          (λ p. held_slot x p.0 + (held_reactor x p.1 + k))
  unfolding register_slot
  Balanced-register_slot none reactor readable writable k = Balanced-done refl
  Balanced-register_slot (some slot) reactor readable writable k =
      Balanced-bind
        (Balanced-from (omega arith)
          (Balanced-add reactor slot.fd readable writable (held_fd x slot.fd + k)))
        (λ p. registered p.0 p.1)
    where
      registered :
          (reactor' : Reactor) (r : Result Token)
          → Balanced x
              (held_reactor x reactor' + (held_fd x slot.fd + k))
              (elim r as (λ _. Io (Option FdSlot × Reactor × Result (Unit {0}))) [
                | ok token ↦ pure (some (record slot { token = some token }), reactor', ok tt)
                | err e ↦ drop_fd slot.fd >> pure (none, reactor', err e)
              ])
              (λ p. held_slot x p.0 + (held_reactor x p.1 + k))
      registered reactor' (ok token) = Balanced-done (omega arith)
      registered reactor' (err e) =
          Balanced-then
            (Balanced-from (omega arith) (Balanced-drop_fd slot.fd (held_reactor x reactor' + k)))
            (Balanced-done (omega arith))

  pub Balanced-register :
      (d : DrainState) (reactor : Reactor) (k : ℕ)
      → Balanced x
          (held_drain x d + (held_reactor x reactor + k))
          (register_with_reactor d reactor)
          (λ p. held_drain x p.0 + (held_reactor x p.1 + k))
  unfolding register_with_reactor
  Balanced-register d reactor k =
      let o = held_slot x d.stdout_slot in
      let e = held_slot x d.stderr_slot in
      Balanced-bind
        (Balanced-from (omega arith)
          (Balanced-register_slot d.stdin_slot reactor false true (o + (e + k))))
        (λ i.
          Balanced-match (λ _. held_slot x i.0 + (held_reactor x i.1 + (o + (e + k)))) i.2
            (λ _.
              Balanced-bind
                (Balanced-from (omega arith)
                  (Balanced-register_slot d.stdout_slot i.1 true false (held_slot x i.0 + (e + k))))
                (λ p.
                  Balanced-match
                    (λ _. held_slot x p.0 + (held_reactor x p.1 + (held_slot x i.0 + (e + k)))) p.2
                    (λ _.
                      Balanced-bind
                        (Balanced-from (omega arith) (
                          Balanced-register_slot d.stderr_slot p.1 true false
                            (held_slot x i.0 + (held_slot x p.0 + k))))
                        (λ q. Balanced-done (omega arith)))
                    (λ _. Balanced-done (omega arith))))
            (λ _. Balanced-done (omega arith)))

  Balanced-remove_slot :
      (slot : Option FdSlot) (reactor : Reactor) (k : ℕ)
      → Balanced x (held_slot x slot + k) (remove_slot slot reactor) (λ _. k)
  unfolding remove_slot
  Balanced-remove_slot none reactor k = Balanced-done (omega arith)
  Balanced-remove_slot (some slot) reactor k =
      Balanced-then (Balanced-Steps (held_fd x slot.fd + k) (Neutral-del reactor slot.fd))
        (Balanced-drop_fd slot.fd k)

  pub Balanced-drop_stdout :
      (d : DrainState) (reactor : Reactor) (k : ℕ)
      → Balanced x (held_drain x d + k) (drop_stdout d reactor) (λ d'. held_drain x d' + k)
  unfolding drop_stdout
  Balanced-drop_stdout d reactor k =
      Balanced-then
        (Balanced-from (omega arith) (
          Balanced-remove_slot d.stdout_slot reactor
            (held_slot x d.stderr_slot + held_slot x d.stdin_slot + k)))
        (Balanced-done (omega arith))

  pub Balanced-drop_stderr :
      (d : DrainState) (reactor : Reactor) (k : ℕ)
      → Balanced x (held_drain x d + k) (drop_stderr d reactor) (λ d'. held_drain x d' + k)
  unfolding drop_stderr
  Balanced-drop_stderr d reactor k =
      Balanced-then
        (Balanced-from (omega arith) (
          Balanced-remove_slot d.stderr_slot reactor
            (held_slot x d.stdout_slot + held_slot x d.stdin_slot + k)))
        (Balanced-done (omega arith))

  pub Balanced-drop_stdin :
      (d : DrainState) (reactor : Reactor) (k : ℕ)
      → Balanced x (held_drain x d + k) (drop_stdin d reactor) (λ d'. held_drain x d' + k)
  unfolding drop_stdin
  Balanced-drop_stdin d reactor k =
      Balanced-then
        (Balanced-from (omega arith) (
          Balanced-remove_slot d.stdin_slot reactor
            (held_slot x d.stdout_slot + held_slot x d.stderr_slot + k)))
        (Balanced-done (omega arith))
