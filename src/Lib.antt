-- ===== src/Lib.antt =====
-- coreshift-lowlevel: a substrate for Linux system primitives, as far as the kernel can check it.
--
-- The program runs a child process and moves its data: descriptors with EINTR loops, an epoll
-- reactor, buffers for the output and a writer for the input of the process, and a loop that
-- watches the process to its end, with a deadline and signals. Beside that it reads inotify.
--
--   Os.antt (Os/)         the boundary: calls of libc, answers, logs, programs, total correctness
--   Error.antt            src/spawn/mod.rs: SysError, syscall_ret, posix_ret
--   Fd.antt (Fd/)         src/reactor/mod.rs: Fd and its operations; Fd/Retry and Fd/Effects
--                         have what read_raw, write_raw and the slices do to the log
--   Text.antt             the parts of Rust's strings that the source uses
--   Inotify.antt          src/inotify.rs: add_watch, read_events, decode_events
--   Reactor.antt          src/reactor/mod.rs: Reactor (new, add, del, wait, setup_*, drain_signalfd)
--   Io/Buffer.antt        src/io/buffer.rs: BufferState (read_from_fd, into_parts)
--   Io/Writer.antt        src/io/writer.rs: WriterState (write_to_fd)
--   Io/Drain.antt         src/io/drain.rs: DrainState and its handlers
--   System/Exec.antt      src/sys/mod.rs: CancelPolicy, ProcessGroup, ExecContext
--   System/Readahead.antt src/sys/mod.rs: readahead, readahead_raw
--   Spawn/Process.antt    src/spawn/mod.rs: Process (wait_step, wait_blocking, kill, kill_pgroup)
--   Spawn/Options.antt    src/spawn/mod.rs: SpawnOptions, its builder, resolve_backend
--   Spawn/WaitLoop.antt   src/spawn/mod.rs: wait_loop. Below it Signals, Deadline, Watching and
--                         Escalation are about its signals, Reaping about the status,
--                         Enforcement about its deadline, Unattended about a process without
--                         pipes, Keeping, Handling, Dispatch,
--                         Capture and Delivery about its data, Plain and Frames about its calls
--   Spawn/Pipes.antt      src/spawn/mod.rs: make_pipe, Pipes, close_range_fast
--   Spawn/Posix.antt      src/spawn/mod.rs: spawn_posix_internal; Asking is about its actions and
--                         attributes, Strays about its scan of the open descriptors
--   Spawn/Fork.antt       src/spawn/mod.rs: spawn_fork_internal, the child's part included
--   Spawn/Start.antt      src/spawn/mod.rs: RunningProcess, spawn_start, spawn; Isolation is about
--                         the choice of the backend
--   */Closing.antt        what each part opens, holds and closes
--   System/Signals.antt   src/sys/mod.rs: SignalRuntime
--   System/Shutdown.antt  src/sys/mod.rs: install_shutdown_flag and its handlers
--   System/Procfs.antt    src/sys/mod.rs: path_exists, path_lstat_exists, path_uid, proc_uid
--   System/ProcStatus.antt src/sys/mod.rs: parse_proc_status, read_proc_cmdline
--   Tests.antt (Tests/)   examples of the theorems at concrete data
--
-- The kernel is a parameter. A world (`Sys`) has a script of answers, each a function of the call
-- that it meets, a log of what happened, the newest first, and the thread's errno. A program is a
-- function of the world; it returns, or waits in a call for which the script has no answer. What
-- is relied on of the kernel is `IsHonest`: `read` and `write` return at most what they were asked
-- for, `epoll_wait` at most the events that there is room for, and `pipe2` two descriptors or -1. A
-- byte is a number; so is a code point. The macros of libc that take a wait status apart are the parameter `StatusMacros`.
--
-- A Rust `loop` is `loop`, a recursion on fuel: one round more than the script has answers. Every
-- round of these loops that goes on has made a call, so that the fuel is enough; `Post`, in which
-- the statements are made, is never true of a program that has run out of fuel. `decode_events`
-- has the length of its buffer as fuel, since every event takes bytes.
--
-- The early-exit callback is a plain function, as it is in `SpawnDrain`. Constants are those of
-- Linux, and words are little-endian. The capacity of a vector is modelled for the reactor's
-- events buffer only, where the kernel writes into it. Clocks are answers: `elapsed` gives the
-- time since the start of the loop in nanoseconds.
--
-- Not modelled: the formatting and serialization of errors, `get_clk_tck`, the setting of a
-- vector's capacity, and the number of the readahead system call: each is one call of a library or
-- a constant. `close_range` and the readahead call are taken to be there.
pub mod Prelude
pub mod Os
pub mod Error
pub mod Fd
pub mod Text
pub mod Inotify
pub mod System
pub mod Reactor
pub mod Io
pub mod Spawn
pub mod Tests
