-- ===== src/Daemon/Tests.antt =====
-- A process that becomes a daemon, run.
use my_linux_demo.Base.{ℕ, ◌≡◌, refl, true, false, none, some, arith}
use my_linux_demo.Daemon.{
  System, flags_of, inherited, Process, success, failure, in_child, start_session, detach,
  reopen_std_fds, reopen, open_null, lowest_free, dup_out, dup2_stdin, dup_err, close_files,
  close_from, become_daemon,
}
use my_linux_demo.Daemon.Result.{IsWilling, IsDaemon, become_daemon-IsDaemon, success-IsWilling}

-- A system that lets every call succeed, and one without "/dev/null".
abbrev willing_system : System
willing_system = record {
  fork_first = in_child;
  setsid_ok = true;
  fork_second = in_child;
  open_max = some 5;
  null_ok = true;
}

abbrev no_null : System
no_null = record willing_system { null_ok = false }

abbrev shell_child : Process
shell_child = record {
  fds = λ fd. some (inherited fd);
  mask = 18;
  in_root = false;
  is_leader = true;
  has_terminal = true;
}

willing_system-IsWilling : (flags : ℕ) → IsWilling willing_system (flags_of flags)
willing_system-IsWilling flags = record {
  first = refl;
  session = refl;
  second = refl;
  null = λ e. refl;
}

closed_four : (become_daemon willing_system 0 shell_child).1.fds 4 ≡ none
unfolding become_daemon start_session detach reopen_std_fds flags_of reopen open_null lowest_free
    dup_out dup2_stdin dup_err close_files close_from
closed_four = refl

no_null_fails : (become_daemon no_null 0 shell_child).0 ≡ failure
unfolding become_daemon start_session detach reopen_std_fds flags_of reopen open_null
no_null_fails = refl

become_daemon-IsDaemon_example :
    ((become_daemon willing_system 9 shell_child).0 ≡ success)
    × IsDaemon willing_system
        (flags_of 9)
        shell_child
        (become_daemon willing_system 9 shell_child).1
become_daemon-IsDaemon_example =
    become_daemon-IsDaemon willing_system 9 shell_child (willing_system-IsWilling 9) (omega arith)

success-IsWilling_example : IsWilling willing_system (flags_of 0)
success-IsWilling_example =
    success-IsWilling willing_system 0 shell_child
      (become_daemon-IsDaemon willing_system 0 shell_child (willing_system-IsWilling 0)
        (omega arith)).0
