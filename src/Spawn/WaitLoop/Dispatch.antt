-- ===== src/Spawn/WaitLoop/Dispatch.antt =====
-- spawn/mod.rs: the data of the process while the events of a round are handed out.
use coreshift_lowlevel.Prelude.{
  ℕ, ◌≤◌, ◌≢◌, List, [], ◌∷◌, ℤ, Bool, true, false, arith, length, if◌then◌else◌,
}
use coreshift_lowlevel.Os.{returned, Sys, Io, pure, Post, Post-bind, Post-mono}
use coreshift_lowlevel.Error.{Result, ok, err}
use coreshift_lowlevel.Reactor.{Reactor, Event}
use coreshift_lowlevel.Io.Drain.{
  DrainState, drop_stdout, drop_stderr, drop_stdin, stdout_matches, stderr_matches, stdin_matches,
}
use coreshift_lowlevel.Spawn.WaitLoop.{handle_event, handle_events, quietly}
use coreshift_lowlevel.Spawn.WaitLoop.Keeping.{Kept, Anything}
use coreshift_lowlevel.Spawn.WaitLoop.Handling.{
  Handled, drop_stdout_keeps, drop_stderr_keeps, drop_stdin_keeps, quietly_keeps,
  stdout_ready_keeps, stderr_ready_keeps, stdin_writable_keeps,
}

module _ (limit : ℕ) (fo fe : ℤ) (bo be : List ℕ) (apart : fo ≢ fe) where
  Post-if :
      {A : Type 0} (Q : A → Sys → Type 0) (b : Bool) (m n : Io A) (s : Sys)
      → Post Q Anything (m s)
      → Post Q Anything (n s)
      → Post Q Anything ((if b then m else n) s)
  Post-if Q true m n s p q = p
  Post-if Q false m n s p q = q

  handle_event_keeps :
      (reactor : Reactor) (d : DrainState) (ev : Event) (s : Sys)
      → Kept limit fo fe bo be d s
      → Post (Handled limit fo fe bo be apart s) Anything (handle_event reactor d ev s)
  unfolding handle_event
  handle_event_keeps reactor d ev s k =
      let idle : Post (Handled limit fo fe bo be apart s) Anything (returned (d, ok tt) s) =
        (k, omega arith) in
      Post-if (Handled limit fo fe bo be apart s) (stdout_matches d ev.token) _ _ s
        (Post-if (Handled limit fo fe bo be apart s) ev.readable _ _ s
          (stdout_ready_keeps limit fo fe bo be apart d reactor s k)
          (Post-if (Handled limit fo fe bo be apart s) ev.error (quietly (drop_stdout d reactor)) _
            s
            (quietly_keeps limit fo fe bo be apart (drop_stdout d reactor) s s (omega arith)
              (drop_stdout_keeps limit fo fe bo be apart d reactor s k))
            idle))
        (Post-if (Handled limit fo fe bo be apart s) (stderr_matches d ev.token) _ _ s
          (Post-if (Handled limit fo fe bo be apart s) ev.readable _ _ s
            (stderr_ready_keeps limit fo fe bo be apart d reactor s k)
            (Post-if (Handled limit fo fe bo be apart s) ev.error (quietly (drop_stderr d reactor))
              _ s
              (quietly_keeps limit fo fe bo be apart (drop_stderr d reactor) s s (omega arith)
                (drop_stderr_keeps limit fo fe bo be apart d reactor s k))
              idle))
          (Post-if (Handled limit fo fe bo be apart s) (stdin_matches d ev.token) _ _ s
            (Post-if (Handled limit fo fe bo be apart s) ev.writable _ _ s
              (stdin_writable_keeps limit fo fe bo be apart d reactor s k)
              (Post-if (Handled limit fo fe bo be apart s) ev.error (quietly (drop_stdin d reactor))
                _ s
                (quietly_keeps limit fo fe bo be apart (drop_stdin d reactor) s s (omega arith)
                  (drop_stdin_keeps limit fo fe bo be apart d reactor s k))
                idle))
            idle))

  pub handle_events_keep :
      (reactor : Reactor) (d : DrainState) (evs : List Event) (s : Sys)
      → Kept limit fo fe bo be d s
      → Post (Handled limit fo fe bo be apart s) Anything (handle_events reactor d evs s)
  unfolding handle_events
  handle_events_keep reactor d [] s k = (k, omega arith)
  handle_events_keep reactor d (ev ∷ evs) s k =
      Post-bind (Handled limit fo fe bo be apart s) (Handled limit fo fe bo be apart s) Anything
        (handle_event reactor d ev) _ s (handle_event_keeps reactor d ev s k)
        (λ p s' h. next (λ d' w k'. handle_events_keep reactor d' evs w k') p.0 p.1 s' h.0 h.1)
    where
      next :
          ((d' : DrainState) (w : Sys)
            → Kept limit fo fe bo be d' w
            → Post (Handled limit fo fe bo be apart w) Anything (handle_events reactor d' evs w))
          → (d' : DrainState) (r : Result (Unit {0})) (s' : Sys) → Kept limit fo fe bo be d' s'
          → length s'.script ≤ length s.script
          → Post (Handled limit fo fe bo be apart s) Anything (
              (elim r as (λ _. Io (DrainState × Result (Unit {0}))) [
                | ok _ ↦ handle_events reactor d' evs
                | err e ↦ pure (d', err e)
              ])
                s')
      next rest d' (err e) s' k' le = (k', le)
      next rest d' (ok _) s' k' le =
          Post-mono (Handled limit fo fe bo be apart s') (Handled limit fo fe bo be apart s)
            Anything Anything (handle_events reactor d' evs s')
            (λ _ _ h. (h.0, omega (arith, h.1, le))) (λ _ h. h) (rest d' s' k')
