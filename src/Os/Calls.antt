-- ===== src/Os/Calls.antt =====
-- Every call of libc that the crate makes, and the kernel's answer.
use coreshift_lowlevel.Prelude.{ℕ, List, ℤ, Option}

-- `struct epoll_event`
pub record EpollEvent : Type 0 where
  pub events : ℕ
  pub u64 : ℕ

-- A handler that `sigaction` installs.
pub data Handler : Type 0 where
  shutdown_handler : Handler
  foreign_handler : ℕ → Handler

-- A directory stream is named by the descriptor that `fdopendir` made it of.
pub data Call : Type 0 where
  read : ℤ → ℕ → Call
  write : ℤ → List ℕ → Call
  close : ℤ → Call
  dup2 : ℤ → ℤ → Call
  fcntl_getfl : ℤ → Call
  fcntl_setfl : ℤ → ℕ → Call
  fcntl_getfd : ℤ → Call
  fcntl_setfd : ℤ → ℕ → Call
  pipe2 : ℕ → Call
  epoll_create1 : ℕ → Call
  epoll_ctl_add : ℤ → ℤ → EpollEvent → Call
  epoll_ctl_del : ℤ → ℤ → Call
  epoll_wait : ℤ → ℤ → ℤ → Call
  inotify_init1 : ℕ → Call
  inotify_add_watch : ℤ → List ℕ → ℕ → Call
  sigprocmask : ℕ → List ℕ → Call
  signalfd : ℤ → List ℕ → ℕ → Call
  waitpid : ℤ → ℕ → Call
  kill : ℤ → ℕ → Call
  elapsed : Call
  readahead : ℤ → ℕ → ℕ → Call
  sigaction : ℕ → Handler → Call
  fork : Call
  setsid : Call
  chdir : List ℕ → Call
  setpgid : ℤ → ℤ → Call
  signal_default : ℕ → Call
  close_range : ℕ → ℕ → Call
  execve : List ℕ → List (Option (List ℕ)) → Option (List (Option (List ℕ))) → Call
  exit : ℕ → Call
  file_actions_init : Call
  file_actions_adddup2 : ℤ → ℤ → Call
  file_actions_addclose : ℤ → Call
  file_actions_destroy : Call
  attr_init : Call
  attr_setpgroup : ℤ → Call
  attr_setflags : ℕ → Call
  attr_setsigmask : List ℕ → Call
  attr_setsigdefault : List ℕ → Call
  attr_destroy : Call
  posix_spawn : List ℕ → List (Option (List ℕ)) → Option (List (Option (List ℕ))) → Call
  open_fd_dir : Call
  fdopendir : ℤ → Call
  readdir : ℤ → Call
  closedir : ℤ → Call
  access : List ℕ → Call
  lstat : List ℕ → Call
  stat : List ℕ → Call

-- What the kernel gives back: the returned number, the thread's `errno` after the call, and the
-- memory that the call fills.
pub record Answer : Type 0 where
  pub ret : ℤ
  pub errno : ℕ
  pub bytes : List ℕ
  pub fds : ℤ × ℤ
  pub pid : ℤ
  pub uid : ℕ
  pub name : Option (List ℕ)
  pub ready : List EpollEvent
  pub status : ℤ
  pub nanos : ℕ
  pub old_action : Handler

pub record Happened : Type 0 where
  pub call : Call
  pub answer : Answer

-- The state of the world as the program sees it; the log has the newest call first.
-- The script is what the kernel will answer, each answer a function of the call that it meets.
pub record Sys : Type 0 where
  pub script : List (Call → Answer)
  pub log : List Happened
  pub errno : ℕ
