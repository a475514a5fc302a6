-- ===== src/Reactor/Registering.antt =====
-- reactor/mod.rs: `add` and its call.
use coreshift_lowlevel.Prelude.{
  ℕ, ◌+◌, ◌%◌, ◌≡◌, ◌≢◌, refl, sym, ◌∙◌, ap, subst, ◌⊎◌, inl, inr, ℤ, pos, minus_one, eq_int,
  eq_int_iff, Bool, true, false, String, Bool-cases,
}
use coreshift_lowlevel.Os.{
  Sys, Answer, returned, pure, Post, Post-bind_assoc, Performed, Stopped, perform, perform_lem,
  ◌>>=◌, epoll_ctl_add, Call,
}
use coreshift_lowlevel.Error.{Result, ok, err, syscall, syscall_ret}
use coreshift_lowlevel.Fd.{Fd, raw}
use coreshift_lowlevel.Reactor.{Reactor, Token, add, two_64}

-- `syscall_ret` makes no call: it fails with the code in `errno` exactly for -1.
pub syscall_ret_cases :
    (ret : ℤ) (op : String) (s : Sys)
    → ((ret ≢ minus_one) × (syscall_ret ret op s ≡ returned (ok tt) s))
      ⊎ ((ret ≡ minus_one) × (syscall_ret ret op s ≡ returned (err (syscall (pos s.errno) op)) s))
unfolding syscall_ret
syscall_ret_cases ret op s = elim (Bool-cases (eq_int ret minus_one)) [
  | inl failed ↦ inr ((eq_int_iff ret minus_one).0 failed, rw failed)
  | inr fine ↦ inl (λ e. cc (sym ((eq_int_iff ret minus_one).1 e) ∙ fine), rw fine)
]

-- EPOLLET with EPOLLIN for reading and EPOLLOUT for writing.
abbrev pub interest : Bool → Bool → ℕ
interest true true = 0x80000005
interest true false = 0x80000001
interest false true = 0x80000004
interest false false = 0x80000000

abbrev pub next : ℕ → ℕ
next n = (n + 1) % two_64

abbrev pub token_of : Reactor → Token
token_of reactor = record { val = reactor.next_token }

abbrev pub counted_up : Reactor → Reactor
counted_up reactor = record reactor { next_token = next reactor.next_token }

-- The one call that `add` makes, and its result.
pub record Added (reactor : Reactor) (fd : Fd) (readable writable : Bool) (s : Sys)
    (out : Reactor × Result Token) (s' : Sys) : Type 0 where
  pub answer : Answer
  pub called :
      Performed
        (epoll_ctl_add reactor.epfd
          (raw fd)
          (record { events = interest readable writable; u64 = reactor.next_token }))
        s
        answer
        s'
  pub counted : out.0 ≡ counted_up reactor
  pub result :
      ((answer.ret ≢ minus_one) × (out.1 ≡ ok (token_of reactor)))
      ⊎ ((answer.ret ≡ minus_one) × (out.1 ≡ err (syscall (pos answer.errno) "epoll_ctl_add")))

module _ (reactor : Reactor) (fd : Fd) (readable writable : Bool) (s : Sys) where
  abbrev call : ℕ → Call
  call events =
      epoll_ctl_add reactor.epfd (raw fd) (record { events = events; u64 = reactor.next_token })

  token_result : Result (Unit {0}) → Reactor × Result Token
  token_result r = (counted_up reactor, elim r [ ok _ ↦ ok (token_of reactor) | err e ↦ err e ])

  after_call :
      (a : Answer) (s' : Sys)
      → Performed (call (interest readable writable)) s a s'
      → Post
          (Added reactor fd readable writable s)
          (Stopped s)
          ((syscall_ret a.ret "epoll_ctl_add" >>= λ r. pure (token_result r)) s')
  unfolding token_result
  after_call a s' p = elim (syscall_ret_cases a.ret "epoll_ctl_add" s') [
    | inl (fine, e) ↦
        rw (e, ◌>>=◌) (record { answer = a; called = p; counted = refl; result = inl (fine, refl) })
    | inr (failed, e) ↦
        rw (e, ◌>>=◌)
          (record {
            answer = a;
            called = p;
            counted = refl;
            result = inr (failed, ap (λ n. err (syscall (pos n) "epoll_ctl_add")) p.errno);
          })
  ]

  add_with :
      (events : ℕ)
      → events ≡ interest readable writable
      → Post (Added reactor fd readable writable s) (Stopped s) (
          ((perform (call events) >>= λ r. syscall_ret r.ret "epoll_ctl_add") >>= λ r.
          pure (token_result r))
            s)
  add_with events e =
      Post-bind_assoc (Performed (call events) s) (Added reactor fd readable writable s) (Stopped s)
        (perform (call events)) (λ r. syscall_ret r.ret "epoll_ctl_add")
        (λ r. pure (token_result r)) s (perform_lem (call events) s)
        (λ a s' p. after_call a s' (subst (λ n. Performed (call n) s a s') e p))

-- `add` makes one call: it registers the descriptor edge-triggered, for reading and writing as it is
-- asked, under the reactor's counter as its token. The counter moves on in every case, modulo 2^64; the
-- token is returned unless the call fails, and else its code.
pub add_lem :
    (reactor : Reactor) (fd : Fd) (readable writable : Bool) (s : Sys)
    → Post (Added reactor fd readable writable s) (Stopped s) (add reactor fd readable writable s)
unfolding add token_result
add_lem reactor fd true true s = add_with reactor fd true true s 0x80000005 refl
add_lem reactor fd true false s = add_with reactor fd true false s 0x80000001 refl
add_lem reactor fd false true s = add_with reactor fd false true s 0x80000004 refl
add_lem reactor fd false false s = add_with reactor fd false false s 0x80000000 refl
