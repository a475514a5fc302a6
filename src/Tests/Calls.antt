-- ===== src/Tests/Calls.antt =====
-- Examples of the theorems on single calls, on the reactor, and on the arguments of a process.
use coreshift_lowlevel.Prelude.{
  String, ℕ, ◌≡◌, List, [], ◌∷◌, ◌++◌, ◌⊎◌, pos, true, false, none, some, map,
}
use coreshift_lowlevel.Os.{Post, Stopped, read, write}
use coreshift_lowlevel.Error.{ok, err, syscall}
use coreshift_lowlevel.Fd.{Fd, raw, read_raw, write_raw, einval}
use coreshift_lowlevel.Fd.{Ends, Hangs, read_raw_retries, write_raw_retries}
use coreshift_lowlevel.Reactor.{Reactor, add}
use coreshift_lowlevel.Reactor.Registering.{Added, add_lem}
use coreshift_lowlevel.System.Exec.{ExecContext, new, dynamic, get_argv_ptrs}
use coreshift_lowlevel.System.Exec.Validation.{IsValid, new_decides}
use coreshift_lowlevel.Tests.Kernel.{world, busy}
use coreshift_lowlevel.Os.{readahead, returned}
use coreshift_lowlevel.System.Readahead.{readahead_raw, off64_max, uint_max}
use coreshift_lowlevel.System.Readahead.Range.{RangeTells, readahead_raw_bounds}
use coreshift_lowlevel.Fd.{Decided}
use coreshift_lowlevel.Prelude.{◌≤◌, ◌<◌, min}

abbrev pipe : Fd
pipe = record { raw_fd = pos 5 }

read_raw_retries_example :
    Post
      (Ends (read (raw pipe) 8) "read" (world busy))
      (Hangs (read (raw pipe) 8) (world busy))
      (read_raw pipe 8 (world busy))
read_raw_retries_example = read_raw_retries pipe 8 (world busy)

write_raw_retries_example :
    Post
      (Ends (write (raw pipe) (1 ∷ 2 ∷ [])) "write" (world busy))
      (Hangs (write (raw pipe) (1 ∷ 2 ∷ [])) (world busy))
      (write_raw pipe (1 ∷ 2 ∷ []) (world busy))
write_raw_retries_example = write_raw_retries pipe (1 ∷ 2 ∷ []) (world busy)

abbrev reactor : Reactor
reactor = record {
  epfd = pos 3;
  next_token = 1;
  events_buf = record { items = []; capacity = 0 };
  signal_fd = none;
  sigchld_token = none;
  inotify_token = none;
}

add_lem_example :
    Post
      (Added reactor pipe true false (world busy))
      (Stopped (world busy))
      (add reactor pipe true false (world busy))
add_lem_example = add_lem reactor pipe true false (world busy)

abbrev argv : List (List ℕ)
argv = (108 ∷ 115 ∷ []) ∷ []

new_decides_example :
    (IsValid argv none none
      × ((ctx : ExecContext) × (new argv none none ≡ ok ctx)
          × (ctx ≡ record { argv = dynamic argv; envp = none; cwd = none })
          × (get_argv_ptrs ctx ≡ map some argv ++ (none ∷ []))))
    ⊎ ((¬ IsValid argv none none)
        × ((op : String) × (new argv none none ≡ err (syscall (pos einval) op))))
new_decides_example = new_decides argv none none

readahead_raw_bounds_example :
    ((off64_max < 4096)
      × (readahead_raw (pos 5) 4096 8589934592 (world busy)
          ≡ returned (err (syscall (pos einval) "readahead")) (world busy)))
    ⊎ ((4096 ≤ off64_max)
        × Post
            (Decided (readahead (pos 5) 4096 (min 8589934592 uint_max)) RangeTells (world busy))
            (Hangs (readahead (pos 5) 4096 (min 8589934592 uint_max)) (world busy))
            (readahead_raw (pos 5) 4096 8589934592 (world busy)))
readahead_raw_bounds_example = readahead_raw_bounds (pos 5) 4096 8589934592 (world busy)
