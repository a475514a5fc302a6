-- ===== src/Inotify/Draining.antt =====
-- inotify.rs: the loop of `read_events`.
use coreshift_lowlevel.Prelude.{
  ℕ, ◌≤◌, ◌<◌, ◌≡◌, ◌≢◌, refl, sym, ◌∙◌, ap, subst, ◌⊎◌, List, [], ◌∷◌, ◌++◌, append_assoc,
  append-nil, ℤ, pos, Bool, Option, none, some, inl, inr, arith, length, take, replicate,
  Bool-cases, ==_iff, ◌==◌, if◌then◌else◌, length-append, length-drop, length-replicate, take_all,
  take-append_le, drop,
}
use coreshift_lowlevel.Os.{
  IsFailure, Happened, Sys, Post, Post-bind, Post-mono, Post-loop, RoundPost, Round, continue,
  break, IsHonest, read,
}
use coreshift_lowlevel.Os.Traces.{delivered, put, arrivals}
use coreshift_lowlevel.Error.{Result, ok, err, syscall}
use coreshift_lowlevel.Fd.{
  Fd, raw, read_slice, stored, store, Tells, Newest, SliceRead, read_slice_lem, ReadEffect,
  ReadHangs, data_of, eagain, eintr, Newest-map, eq_int_refl,
}
use coreshift_lowlevel.Inotify.{
  InotifyEvent, decode_events, read_events_round, read_events, ReadState,
}

-- The events of one read after another.
abbrev pub decode_all : List (List ℕ) → List InotifyEvent
decode_all [] = []
decode_all (chunk ∷ chunks) = decode_all chunks ++ decode_events chunk

-- The bytes of the reads, the newest first.
abbrev pub joined : List (List ℕ) → List ℕ
joined [] = []
joined (chunk ∷ chunks) = joined chunks ++ chunk

-- Each read was at most 4096 bytes long.
abbrev pub AllShort : List (List ℕ) → Type 0
AllShort [] = Unit
AllShort (chunk ∷ chunks) = (length chunk ≤ 4096) × AllShort chunks

-- The events are those of the reads that brought something since the log was `past`.
pub record Drained (fd : ℤ) (past : List Happened) (events : List InotifyEvent) (s : Sys)
    : Type 0 where
  pub chunks : List (List ℕ)
  pub short : AllShort chunks
  pub read_by : arrivals fd s.log ≡ chunks ++ arrivals fd past
  pub arrived : delivered fd s.log ≡ delivered fd past ++ joined chunks
  pub decoded : events ≡ decode_all chunks

-- What a result of `read_events` says of the log and the newest call.
abbrev pub Read : Fd → List Happened → Result (List InotifyEvent) → Sys → Type 0
Read fd past (ok events) s =
    Drained (raw fd) past events s
    × ((count : ℕ) × Newest (read (raw fd) count)
          (λ a. (a.ret ≡ pos 0) ⊎ (IsFailure a.ret × (a.errno ≡ eagain))) s.log)
Read fd past (err e) s =
    (count : ℕ) × Newest (read (raw fd) count)
      (λ a.
        IsFailure a.ret
        × (a.errno ≢ eintr)
        × (a.errno ≢ eagain)
        × (e ≡ syscall (pos a.errno) "read"))
      s.log

pub fd_brings :
    (fd : Fd) (count : ℕ) (r : Result (Option (ℕ × List ℕ))) (w w' : Sys)
    → ReadEffect (raw fd) count w r w'
    → delivered (raw fd) w'.log ≡ delivered (raw fd) w.log ++ data_of r
fd_brings fd count r w w' e =
    e.arrived (raw fd)
    ∙ ap (λ (b : Bool). delivered (raw fd) w.log ++ (if b then data_of r else []))
        (eq_int_refl (raw fd))

fd_chunk :
    (fd : Fd) (count : ℕ) (r : Result (Option (ℕ × List ℕ))) (w w' : Sys)
    → ReadEffect (raw fd) count w r w'
    → arrivals (raw fd) w'.log ≡ put (data_of r) (arrivals (raw fd) w.log)
fd_chunk fd count r w w' e =
    e.chunk (raw fd)
    ∙ ap (λ (b : Bool). put (if b then data_of r else []) (arrivals (raw fd) w.log))
        (eq_int_refl (raw fd))

put-some :
    (bytes : List ℕ) (chunks : List (List ℕ)) → 0 < length bytes → put bytes chunks ≡ bytes ∷ chunks
put-some [] chunks h = absurd (omega (arith, h))
put-some (b ∷ bs) chunks h = refl

module _ (fd : Fd) (past : List Happened) where
  abbrev Going : ReadState → Sys → Type 0
  Going st s = Drained (raw fd) past st.0 s × IsHonest s.script × (length st.1 ≡ 4096)

  -- Nothing has come.
  unchanged :
      (events : List InotifyEvent) (r : Result (Option (ℕ × List ℕ))) (w w' : Sys)
      → ReadEffect (raw fd) 4096 w r w'
      → data_of r ≡ []
      → Drained (raw fd) past events w
      → Drained (raw fd) past events w'
  unchanged events r w w' e nothing d = record {
    chunks = d.chunks;
    short = d.short;
    read_by =
        fd_chunk fd 4096 r w w' e ∙ ap (λ t. put t (arrivals (raw fd) w.log)) nothing ∙ d.read_by;
    arrived =
        fd_brings fd 4096 r w w' e
        ∙ ap (λ t. delivered (raw fd) w.log ++ t) nothing
        ∙ append-nil (delivered (raw fd) w.log)
        ∙ d.arrived;
    decoded = d.decoded;
  }

  one_chunk :
      (events : List InotifyEvent) (n : ℕ) (bytes : List ℕ) (w w' : Sys)
      → ReadEffect (raw fd) 4096 w (ok (some (n, bytes))) w'
      → (n ≤ 4096) × (length bytes ≡ n)
      → 0 < n
      → Drained (raw fd) past events w
      → Drained (raw fd) past (events ++ decode_events bytes) w'
  one_chunk events n bytes w w' e sized more d = record {
    chunks = bytes ∷ d.chunks;
    short = (omega (arith, sized.0, sized.1), d.short);
    read_by =
        fd_chunk fd 4096 (ok (some (n, bytes))) w w' e
        ∙ ap (λ t. put t (arrivals (raw fd) w.log)) (take_all n bytes (omega (arith, sized.1)))
        ∙ put-some bytes (arrivals (raw fd) w.log) (omega (arith, sized.1, more))
        ∙ ap (λ t. bytes ∷ t) d.read_by;
    arrived =
        fd_brings fd 4096 (ok (some (n, bytes))) w w' e
        ∙ ap (λ t. delivered (raw fd) w.log ++ t) (take_all n bytes (omega (arith, sized.1)))
        ∙ ap (λ t. t ++ bytes) d.arrived
        ∙ append_assoc (delivered (raw fd) past) (joined d.chunks) bytes;
    decoded = ap (λ t. t ++ decode_events bytes) d.decoded;
  }

  -- The decision of a round, as the code has it.
  abbrev decide :
      List InotifyEvent → Result (Option ℕ) × List ℕ → Round ReadState (Result (List InotifyEvent))
  decide events p = elim p.0 [
    | ok o ↦ elim o [
      | some n ↦
          if n == 0 then break (ok events) else continue (events ++ decode_events (take n p.1), p.1)
      | none ↦ break (ok events)
    ]
    | err e ↦ break (err e)
  ]

  decided :
      (events : List InotifyEvent) (buf : List ℕ) (r : Result (Option (ℕ × List ℕ))) (w w' : Sys)
      → Going (events, buf) w
      → ReadEffect (raw fd) 4096 w r w'
      → RoundPost Going (Read fd past) (length w.script) (decide events (stored buf r)) w'
  decided events buf (err x) w w' g e = (4096, e.newest)
  decided events buf (ok none) w w' g e =
      (unchanged events (ok none) w w' e refl g.0, (4096, Newest-map _ _ (λ a t. inr t) e.newest))
  decided events buf (ok (some (n, bytes))) w w' g e =
      let sized : (n ≤ 4096) × (length bytes ≡ n) = (e.honest g.1).0 in
      elim (Bool-cases (n == 0)) [
        | inl zero_read ↦
            let z : n ≡ 0 = (==_iff n 0).0 zero_read in
            rw zero_read (
              unchanged events (ok (some (n, bytes))) w w' e (ap (λ k. take k bytes) z) g.0,
              (
                4096,
                Newest-map (Tells "read" (ok (some (n, bytes)))) _ (λ a t. inl (t.0 ∙ ap pos z))
                    e.newest,
              ),
            )
        | inr more ↦
            let same : take n (store bytes buf) ≡ bytes =
              take-append_le n bytes (drop (length bytes) buf) (omega (arith, sized.1))
              ∙ take_all n bytes (omega (arith, sized.1)) in
            rw (more, same)
              (
                (
                  one_chunk events n bytes w w' e sized (ground (arith, more)) g.0,
                  (e.honest g.1).1,
                  omega (
                    arith,
                    length-append bytes (drop (length bytes) buf),
                    length-drop (length bytes) buf,
                    sized.0,
                    sized.1,
                    g.2,
                  ),
                ),
                e.used,
              )
      ]

  round_lem :
      (st : ReadState) (w : Sys)
      → Going st w
      → Post
          (RoundPost Going (Read fd past) (length w.script))
          (λ _. Unit)
          (read_events_round fd st w)
  unfolding read_events_round
  round_lem (events, buf) w g =
      Post-bind (SliceRead (raw fd) buf w) (RoundPost Going (Read fd past) (length w.script))
        (λ _. Unit) (read_slice fd buf) _ w
        (Post-mono (SliceRead (raw fd) buf w) (SliceRead (raw fd) buf w)
          (ReadHangs (raw fd) (length buf) w) (λ _. Unit) (read_slice fd buf w) (λ _ _ h. h)
          (λ _ _. tt) (read_slice_lem fd buf w))
        (λ p w' h.
          subst (λ q. RoundPost Going (Read fd past) (length w.script) (decide events q) w')
            (sym h.slice)
            (decided events buf h.result w w' g
              (subst (λ n. ReadEffect (raw fd) n w h.result w') g.2 h.effect)))

-- With an honest kernel, where `read_events` returns `Ok`, it has the events of every read from the
-- descriptor since its start that brought something, decoded read by read in order, each of at most
-- 4096 bytes, and was returned at the end of the data or at EAGAIN; `Err` has the code of any other
-- error. It returns, ends with its process or waits in a call.
pub read_events_decodes :
    (fd : Fd) (s : Sys) → IsHonest s.script → Post (Read fd s.log) (λ _. Unit) (read_events fd s)
unfolding read_events
read_events_decodes fd s h =
    Post-loop (read_events_round fd) (Going fd s.log) (Read fd s.log) (λ _. Unit)
      (round_lem fd s.log) ([], replicate 4096 0) s
      (
        record {
          chunks = [];
          short = tt;
          read_by = refl;
          arrived = sym (append-nil (delivered (raw fd) s.log));
          decoded = refl;
        },
        h,
        length-replicate {A = ℕ} 4096 0,
      )
