-- ===== src/Tests/Buffers.antt =====
-- Examples of the theorems on the buffers of a process, and on the decoding of events.
use coreshift_lowlevel.Prelude.{
  ℕ, suc, ◌≡◌, refl, List, [], ◌∷◌, ◌++◌, inl, pos, true, none, some, arith, length, map,
}
use coreshift_lowlevel.Os.{Post}
use coreshift_lowlevel.Os.Traces.{Grown, delivered, sent}
use coreshift_lowlevel.Fd.{Fd, raw}
use coreshift_lowlevel.Io.Buffer.{BufferState, read_from_fd}
use coreshift_lowlevel.Io.Buffer.Capture.{IsRead}
use coreshift_lowlevel.Io.Buffer.Capture.Rounds.{ReadOut, read_from_fd_captures}
use coreshift_lowlevel.Io.Writer.{WriterState, write_to_fd}
use coreshift_lowlevel.Io.Writer.Progress.{Hung, WrittenOut, write_to_fd_sends}
use coreshift_lowlevel.Inotify.{decode_events, decode_loop}
use coreshift_lowlevel.Inotify.Decoding.{
  Packed, pack_all, view, decode_events-pack_all, decode_events_total,
}
use coreshift_lowlevel.Tests.Kernel.{world, busy, busy-IsHonest}
use coreshift_lowlevel.Inotify.{read_events}
use coreshift_lowlevel.Inotify.Draining.{Read, read_events_decodes}

abbrev pipe : Fd
pipe = record { raw_fd = pos 5 }

abbrev buffers : BufferState
buffers = record { stdout = []; stderr = []; limit = 10 }

read_from_fd_captures_example :
    Post
      (ReadOut buffers pipe true none [] (world busy))
      (λ s'. Grown (IsRead (raw pipe)) [] s'.log)
      (read_from_fd buffers pipe true none (world busy))
unfolding delivered
read_from_fd_captures_example =
    read_from_fd_captures buffers pipe true none [] (world busy)
      (record { seen = []; arrived = refl; kept = refl }) busy-IsHonest

abbrev input : List ℕ
input = 1 ∷ 2 ∷ []

abbrev writer : WriterState
writer = record { buf = some input; off = 0 }

write_to_fd_sends_example :
    Post
      (WrittenOut pipe [] input 0 (world busy))
      (Hung pipe [] input 0 (world busy))
      (write_to_fd writer pipe (world busy))
unfolding sent
write_to_fd_sends_example =
    write_to_fd_sends writer input pipe [] (world busy) refl
      (record { went = refl; within = omega arith }) busy-IsHonest

-- A file `a` was modified.
abbrev modified : Packed
modified = record { wd = 1; mask = 2; cookie = 0; name = 97 ∷ []; padding = 15 }

decode_events-pack_all_example :
    decode_events (pack_all (modified ∷ []) ++ (0 ∷ [])) ≡ map view (modified ∷ [])
decode_events-pack_all_example =
    decode_events-pack_all (modified ∷ []) (0 ∷ [])
      (
        record {
          wd_fits = omega arith;
          mask_fits = omega arith;
          len_fits = omega arith;
          no_nul = (λ e. omega arith, tt);
        },
        tt,
      )
      (inl (omega arith))

decode_events_total_example :
    decode_loop (suc (length input)) input 0 [] ≡ some (decode_events input)
decode_events_total_example = decode_events_total input

read_events_decodes_example : Post (Read pipe []) (λ _. Unit) (read_events pipe (world busy))
read_events_decodes_example = read_events_decodes pipe (world busy) busy-IsHonest
