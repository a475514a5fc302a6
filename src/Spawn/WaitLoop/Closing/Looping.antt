-- ===== src/Spawn/WaitLoop/Closing/Looping.antt =====
-- spawn/mod.rs: the descriptors in `wait_loop`.
use coreshift_lowlevel.Prelude.{
  ℕ, ◌+◌, ◌≡◌, refl, List, [], ◌∷◌, ◌++◌, ℤ, Bool, Option, none, some, arith, take, if◌then◌else◌,
}
use coreshift_lowlevel.Os.{
  Call, Io, pure, ◌>>=◌, perform, epoll_wait, Round, continue, break, last_os_error,
}
use coreshift_lowlevel.Os.Steps.{Strides-perform}
use coreshift_lowlevel.Os.Balance.{
  IsNeutral, Balanced, Balanced-bind, Balanced-then, Balanced-from, Balanced-done, Balanced-match,
  Balanced-Steps,
}
use coreshift_lowlevel.Os.Balance.Loops.{
  held_round, BalancedRound, Balanced-loop, Round-leave, Round-pure, Round-if, Round-after,
  Round-called,
}
use coreshift_lowlevel.Error.{Result, ok, err}
use coreshift_lowlevel.Reactor
use coreshift_lowlevel.Reactor.{Reactor, Event, as_i32, ensure_room, waited}
use coreshift_lowlevel.Reactor.Closing.{
  held_reactor, held_waited, Neutral-del, Balanced-drop_reactor,
}
use coreshift_lowlevel.Io.Drain.{DrainState, FdSlot, take_all_slots, push_slot, is_done}
use coreshift_lowlevel.Io.Drain.Closing.{held_slot, held_drain, Balanced-drop_slot}
use coreshift_lowlevel.Fd.Closing.{Balanced-drop_fd}
use coreshift_lowlevel.System.Exec.{CancelPolicy, ProcessGroup}
use coreshift_lowlevel.Spawn.Process
use coreshift_lowlevel.Spawn.Process.{ExitStatus, StatusMacros}
use coreshift_lowlevel.Spawn.WaitLoop.{
  WaitState, Watch, Leaving, KillState, del_slots, finish, pump, wait_round, wait_timeout,
  max_events, close_up, wait_loop,
}
use coreshift_lowlevel.Spawn.WaitLoop.Still.{Still-wait_step, Still-poll_status, Still-final_status}
use coreshift_lowlevel.Spawn.WaitLoop.Keeping.{Steps-check_deadline}
use coreshift_lowlevel.Spawn.WaitLoop.Closing.{still, handle_events_balance}
use coreshift_lowlevel.Spawn.WaitLoop.Escalation.{watching, begun}
use coreshift_lowlevel.Fd.Closing.{held_fd}
use coreshift_lowlevel.Os.{Sys, Post, Post-bind, Post-mono}
use coreshift_lowlevel.Os.Steps.{Sooner, After}

abbrev held_slots : ℕ → List FdSlot → ℕ
held_slots x [] = 0
held_slots x (slot ∷ slots) = held_fd x slot.fd + held_slots x slots

held_append :
    (x : ℕ) (slots : List FdSlot) (slot : FdSlot)
    → held_slots x (slots ++ (slot ∷ [])) ≡ held_slots x slots + held_fd x slot.fd
held_append x [] slot = omega arith
held_append x (s ∷ slots) slot = omega (arith, held_append x slots slot)

held_push :
    (x : ℕ) (slots : List FdSlot) (o : Option FdSlot)
    → held_slots x (push_slot slots o) ≡ held_slots x slots + held_slot x o
held_push x slots none = omega arith
held_push x slots (some slot) = held_append x slots slot

held_taken : (x : ℕ) (d : DrainState) → held_slots x (take_all_slots d).1 ≡ held_drain x d
unfolding take_all_slots
held_taken x d =
    let i = push_slot [] d.stdin_slot in
    omega (
      arith,
      held_push x [] d.stdin_slot,
      held_push x i d.stdout_slot,
      held_push x (push_slot i d.stdout_slot) d.stderr_slot,
    )

-- What is held where the loop is left, and in its rounds.
abbrev held_leaving : ℕ → ℕ → Leaving → ℕ
held_leaving x k out = held_drain x out.0 + (held_reactor x out.1 + k)

abbrev held_state : ℕ → ℕ → WaitState → ℕ
held_state x k st = held_drain x st.drain + (held_reactor x st.reactor + k)

-- A wait gives the reactor back with its descriptors.
abbrev SameReactor : ℕ → Reactor → Reactor × List Event × Result ℕ → Type 0
SameReactor x reactor b = held_reactor x b.0 ≡ held_reactor x reactor

wait_keeps :
    (x : ℕ) (reactor : Reactor) (timeout : ℤ) (s : Sys)
    → Post
        (λ b s'. Sooner IsNeutral s s' × SameReactor x reactor b)
        (λ _. Unit)
        (Reactor.wait reactor max_events timeout s)
unfolding Reactor.wait last_os_error
wait_keeps x reactor timeout s =
    let reactor' : Reactor = record reactor {
      events_buf = ensure_room max_events reactor.events_buf;
    } in
    let c : Call = epoll_wait reactor.epfd (as_i32 max_events) timeout in
    Post-bind (λ _. Sooner IsNeutral s) (λ b s'. Sooner IsNeutral s s' × SameReactor x reactor b)
      (λ _. Unit) (perform c) _ s
      (Post-mono (λ _. Sooner IsNeutral s) (λ _. Sooner IsNeutral s) (After IsNeutral s) (λ _. Unit)
        (perform c s) (λ _ _ g. g) (λ _ _. tt) ((Strides-perform c tt).run s))
      (λ a s' g. (g, held_waited x reactor' a.ret a.ready s'.errno))

module _ {x : ℕ} where
  Balanced-del_slots :
      (reactor : Reactor) (slots : List FdSlot) (k : ℕ)
      → Balanced x (held_slots x slots + k) (del_slots reactor slots) (λ _. k)
  unfolding del_slots
  Balanced-del_slots reactor [] k = Balanced-done (omega arith)
  Balanced-del_slots reactor (slot ∷ slots) k =
      Balanced-then
        (Balanced-then
          (Balanced-Steps (held_slots x (slot ∷ slots) + k) (Neutral-del reactor slot.fd))
          (Balanced-from (omega arith) (Balanced-drop_fd slot.fd (held_slots x slots + k))))
        (Balanced-del_slots reactor slots k)

  finish_balances :
      (libc : StatusMacros) (w : Watch) (st : WaitState) (k : ℕ)
      → Balanced x (held_state x k st) (finish libc w st) (held_leaving x k)
  unfolding finish
  finish_balances libc w st k =
      Balanced-bind
        (Balanced-Steps (held_state x k st) (Still-final_status still libc w st.status_raw))
        (λ r.
          Balanced-match (λ _. held_state x k st) r
            (λ status.
              Balanced-then
                (Balanced-from (omega (arith, held_taken x st.drain)) (
                  Balanced-del_slots st.reactor (take_all_slots st.drain).1
                    (held_reactor x st.reactor + k)))
                (Balanced-done (unfold take_all_slots in omega arith)))
            (λ e. Balanced-done refl))

  -- A round's events are handed out, with the reactor that the wait gave back.
  pump_balances :
      (st : WaitState) (timeout : ℤ) (k : ℕ)
      → BalancedRound x (held_state x k st) (pump st timeout) (held_state x k) (held_leaving x k)
  unfolding pump
  pump_balances st timeout k =
      Round-called (Reactor.wait st.reactor max_events timeout) (SameReactor x st.reactor)
        (wait_keeps x st.reactor timeout)
        (λ b e. Balanced-from (omega (arith, e)) (
          Balanced-match (λ _. held_drain x st.drain + (held_reactor x b.0 + k)) b.2
            (λ nevents.
              Balanced-bind
                (handle_events_balance b.0 st.drain (take nevents b.1) (held_reactor x b.0 + k))
                (λ p. handed p.0 b.0 p.1))
            (λ e. Balanced-done refl)))
    where
      handed :
          (d : DrainState) (reactor : Reactor) (r : Result (Unit {0}))
          → Balanced x
              (held_drain x d + (held_reactor x reactor + k))
              (pure (elim r as (λ _. Round WaitState Leaving) [
                | ok _ ↦ continue (record st { drain = d; reactor = reactor })
                | err e ↦ break (d, reactor, err e)
              ]))
              (held_round (held_state x k) (held_leaving x k))
      handed d reactor (ok _) = Balanced-done refl
      handed d reactor (err e) = Balanced-done refl

  round_balances :
      (libc : StatusMacros) (w : Watch) (k : ℕ) (st : WaitState)
      → BalancedRound x
          (held_state x k st)
          (wait_round libc w st)
          (held_state x k)
          (held_leaving x k)
  unfolding wait_round
  round_balances libc w k st =
      Round-after (Steps-check_deadline (λ _ _. tt) tt w st.state st.timed_out) (λ c.
        Round-after (Still-poll_status still libc w st.status_raw) (λ r. polled c.0 c.1 c.2 r))
    where
      polled :
          (state : KillState) (timed_out : Bool) (poll_timeout : ℤ) (r : Result (Option ExitStatus))
          → BalancedRound x
              (held_state x k st)
              (elim r as (λ _. Io (Round WaitState Leaving)) [
                | err e ↦ pure (break (st.drain, st.reactor, err e))
                | ok status_raw ↦
                    if is_done st.drain
                    then (finish libc w (record st {
                      state = state;
                      timed_out = timed_out;
                      status_raw = status_raw;
                    })
                        >>= λ out. pure (break out))
                    else pump
                        (record st {
                          state = state;
                          timed_out = timed_out;
                          status_raw = status_raw;
                        })
                        (wait_timeout status_raw poll_timeout)
              ])
              (held_state x k)
              (held_leaving x k)
      polled state timed_out t (err e) = Round-pure
      polled state timed_out t (ok status_raw) =
          let st' : WaitState = record st {
            state = state;
            timed_out = timed_out;
            status_raw = status_raw;
          } in
          Round-if (is_done st.drain) (Round-leave (finish_balances libc w st' k))
            (pump_balances st' (wait_timeout status_raw t) k)

  Balanced-close_up :
      (out : Leaving) (k : ℕ) → Balanced x (held_leaving x k out) (close_up out) (λ _. k)
  unfolding close_up
  Balanced-close_up (d, reactor, r) k =
      let o = held_slot x d.stdout_slot in
      let e = held_slot x d.stderr_slot in
      let i = held_slot x d.stdin_slot in
      Balanced-then
        (Balanced-then
          (Balanced-then
            (Balanced-then
              (Balanced-from (omega arith) (Balanced-drop_reactor reactor (o + (e + (i + k)))))
              (Balanced-drop_slot d.stdout_slot (e + (i + k))))
            (Balanced-drop_slot d.stderr_slot (i + k)))
          (Balanced-drop_slot d.stdin_slot k))
        (Balanced-done refl)

  -- Nothing that was handed in is held in the end.
  pub Balanced-wait_loop :
      (libc : StatusMacros) (pid : ℤ) (drain : DrainState) (reactor : Reactor)
      (timeout_ms : Option ℕ) (kill_grace_ms : ℕ) (cancel : CancelPolicy) (pgroup : ProcessGroup)
      (k : ℕ)
      → Balanced x
          (held_drain x drain + (held_reactor x reactor + k))
          (wait_loop libc pid drain reactor timeout_ms kill_grace_ms cancel pgroup)
          (λ _. k)
  unfolding wait_loop Process.new
  Balanced-wait_loop libc pid drain reactor timeout_ms kill_grace_ms cancel pgroup k =
      Balanced-bind
        (Balanced-Steps (held_drain x drain + (held_reactor x reactor + k))
          (Still-wait_step still libc w.process))
        (λ r.
          Balanced-bind
            (Balanced-match (λ _. held_drain x drain + (held_reactor x reactor + k)) r
              (λ status_raw.
                Balanced-loop (wait_round libc w) (held_state x k) (held_leaving x k)
                  (round_balances libc w k) (begun drain reactor status_raw))
              (λ e. Balanced-done refl))
            (λ out. Balanced-close_up out k))
    where
      w : Watch
      w = watching pid timeout_ms kill_grace_ms cancel pgroup
