-- ===== src/Daemon.antt =====
-- `becomeDaemon` of proc/create_daemon.c, on what the kernel keeps of a process. The system calls
-- are modelled as far as POSIX documents them; what they may refuse is an argument.
pub mod Closing
pub mod Result
pub mod Tests
use my_linux_demo.Base.{
  ℕ, zero, suc, ◌+◌, ◌-◌, ◌/◌, ◌%◌, Bool, true, false, Option, none, some, ◌>>=◌, ltb, ◌==◌,
  if◌then◌else◌, assign,
}

-- BD_NO_CHDIR, BD_NO_CLOSE_FILE, BD_NO_REOPEN_STD_FDS and BD_NO_UMASK are bits of `flags`.
pub record Flags : Type 0 where
  pub no_chdir : Bool
  pub no_close_file : Bool
  pub no_reopen_std_fds : Bool
  pub no_umask : Bool

abbrev bit : ℕ → ℕ → Bool
bit flags weight = flags / weight % 2 == 1

unfoldable pub flags_of : ℕ → Flags
flags_of flags = record {
  no_chdir = bit flags 1;
  no_close_file = bit flags 2;
  no_reopen_std_fds = bit flags 4;
  no_umask = bit flags 8;
}

abbrev pub bd_max_close : ℕ
bd_max_close = 8192

-- What a descriptor refers to.
pub data File : Type 0 where
  dev_null : File
  inherited : ℕ → File

-- A process: its descriptors, file mode mask, working directory, and place in a session.
pub record Process : Type 0 where
  pub fds : ℕ → Option File
  pub mask : ℕ
  pub in_root : Bool
  pub is_leader : Bool
  pub has_terminal : Bool

-- What `fork` returns.
pub data Forked : Type 0 where
  fork_failed in_parent in_child : Forked

-- What the system answers: the two forks, `setsid`, `sysconf(_SC_OPEN_MAX)` (`none` for -1), and
-- whether "/dev/null" can be opened.
pub record System : Type 0 where
  pub fork_first : Forked
  pub setsid_ok : Bool
  pub fork_second : Forked
  pub open_max : Option ℕ
  pub null_ok : Bool

-- 0, -1, or the process has ended.
pub data Ended : Type 0 where
  success failure exited : Ended

abbrev pub forked : Process → Process
forked p = record p { is_leader = false }

abbrev pub new_session : Process → Process
new_session p = record p { is_leader = true; has_terminal = false }

abbrev pub close : Process → ℕ → Process
close p fd = record p { fds = assign p.fds fd none }

-- The lowest free descriptor, with the descriptors that are left.
unfoldable pub lowest_free : ℕ → (ℕ → Option File) → ℕ → Option ℕ
lowest_free zero f fd = none
lowest_free (suc n) f fd =
    let rest = lowest_free n f (fd + 1) in elim (f fd) [ none ↦ some fd | some x ↦ rest ]

abbrev pub max_fd : System → ℕ
max_fd os = elim os.open_max [ none ↦ bd_max_close | some n ↦ n ]

-- `open("/dev/null",O_RDWR)`; `none` is -1.
unfoldable pub open_null : System → Process → Option (ℕ × Process)
open_null os p =
    if os.null_ok
    then (do
      fd ← lowest_free (max_fd os) p.fds 0
      some (fd, record p { fds = assign p.fds fd (some dev_null) }))
    else none

-- `dup2(STDIN_FILENO,fd)`; `none` is -1.
unfoldable pub dup2_stdin : System → Process → ℕ → Option Process
dup2_stdin os p fd =
    if ltb fd (max_fd os)
    then (do file ← p.fds 0; some (record p { fds = assign p.fds fd (some file) }))
    else none

-- `for(fd=0;fd<maxfd;fd++) close(fd);`, with the descriptors that are left.
unfoldable pub close_from : (rounds : ℕ) → Process → (fd : ℕ) → Process
close_from zero p fd = p
close_from (suc n) p fd = close_from n (close p fd) (fd + 1)

-- The two calls of `dup2`; each fails with -1.
unfoldable pub dup_err : Process → Option Process → Ended × Process
dup_err p none = (failure, p)
dup_err p (some q) = (success, q)

unfoldable pub dup_out : System → Process → Option Process → Ended × Process
dup_out os p none = (failure, p)
dup_out os p (some q) = dup_err q (dup2_stdin os q 2)

-- Behind `open`: its result has to be STDIN_FILENO.
unfoldable pub reopen : System → Process → Option (ℕ × Process) → Ended × Process
reopen os p none = (failure, p)
reopen os p (some (fd, q)) = if fd == 0 then dup_out os q (dup2_stdin os q 1) else (failure, q)

-- The four parts that a flag turns off.
unfoldable pub reopen_std_fds : System → (no_reopen_std_fds : Bool) → Process → Ended × Process
reopen_std_fds os true p = (success, p)
reopen_std_fds os false p = reopen os (close p 0) (open_null os (close p 0))

unfoldable pub close_files : System → (no_close_file : Bool) → Process → Process
close_files os true p = p
close_files os false p = close_from (max_fd os) p 0

unfoldable pub clear_umask : (no_umask : Bool) → Process → Process
clear_umask true p = p
clear_umask false p = record p { mask = 0 }

unfoldable pub change_dir : (no_chdir : Bool) → Process → Process
change_dir true p = p
change_dir false p = record p { in_root = true }

-- From the second `fork` on.
unfoldable pub detach : System → Flags → Process → Forked → Ended × Process
detach os f p fork_failed = (failure, p)
detach os f p in_parent = (exited, p)
detach os f p in_child =
    reopen_std_fds os f.no_reopen_std_fds
      (close_files os f.no_close_file (change_dir f.no_chdir (clear_umask f.no_umask (forked p))))

-- From `setsid` on.
unfoldable pub start_session : System → Flags → Process → Forked → Ended × Process
start_session os f p fork_failed = (failure, p)
start_session os f p in_parent = (exited, p)
start_session os f p in_child =
    if os.setsid_ok
    then detach os f (new_session (forked p)) os.fork_second
    else (failure, forked p)

unfoldable pub become_daemon : System → (flags : ℕ) → Process → Ended × Process
become_daemon os flags p = start_session os (flags_of flags) p os.fork_first
