-- ===== src/Daemon/Result.antt =====
-- What `becomeDaemon` returns, and the process that it leaves.
use my_linux_demo.Base.{
  ℕ, ◌-◌, not, ◌&&◌, Bool-cases, inl, inr, ◌≤◌, ◌≡◌, refl, ap, ◌∙◌, Bool, true, false, Option, none,
  some, arith, ltb, if◌then◌else◌,
}
use my_linux_demo.Daemon.{
  System, Flags, flags_of, File, dev_null, Process, Ended, success, failure, Forked, fork_failed,
  in_parent, in_child, forked, new_session, close_files, clear_umask, change_dir, reopen_std_fds,
  reopen, open_null, detach, start_session, become_daemon, max_fd,
}
use my_linux_demo.Daemon.Closing.{close_files-fds, close_files-Alike, Alike, std_null, reopen_lem}

-- The system lets every call succeed.
pub record IsWilling (os : System) (f : Flags) : Type 0 where
  pub first : os.fork_first ≡ in_child
  pub session : os.setsid_ok ≡ true
  pub second : os.fork_second ≡ in_child
  pub null : f.no_reopen_std_fds ≡ false → os.null_ok ≡ true

-- What a descriptor refers to in the end.
abbrev pub fds_of : System → Flags → Process → (fd : ℕ) → Option File
fds_of os f p fd =
    if not f.no_reopen_std_fds && ltb fd 3
    then some dev_null
    else if f.no_close_file
    then p.fds fd
    else if ltb fd (max_fd os)
    then none
    else p.fds fd

-- A daemon made from the process `p`.
pub record IsDaemon (os : System) (f : Flags) (p q : Process) : Type 0 where
  pub no_leader : q.is_leader ≡ false
  pub no_terminal : q.has_terminal ≡ false
  pub mask_is : q.mask ≡ (if f.no_umask then p.mask else 0)
  pub dir_is : q.in_root ≡ (if f.no_chdir then p.in_root else true)
  pub fds_are : (fd : ℕ) → q.fds fd ≡ fds_of os f p fd

abbrev prepared : Flags → Process → Process
prepared f p = change_dir f.no_chdir (clear_umask f.no_umask (forked (new_session (forked p))))

prepared-fields :
    (a b : Bool) (p : Process)
    → let q = change_dir b (clear_umask a p) in
      (q.is_leader ≡ p.is_leader)
      × (q.has_terminal ≡ p.has_terminal)
      × (q.mask ≡ (if a then p.mask else 0))
      × (q.in_root ≡ (if b then p.in_root else true))
      × (q.fds ≡ p.fds)
unfolding change_dir clear_umask
prepared-fields true true p = (refl, refl, refl, refl, refl)
prepared-fields true false p = (refl, refl, refl, refl, refl)
prepared-fields false true p = (refl, refl, refl, refl, refl)
prepared-fields false false p = (refl, refl, refl, refl, refl)

-- The process before the standard descriptors are opened again.
abbrev swept : System → Flags → Process → Process
swept os f p = close_files os f.no_close_file (prepared f p)

become_daemon-swept :
    (os : System) (flags : ℕ) (p : Process)
    → IsWilling os (flags_of flags)
    → become_daemon os flags p
      ≡ reopen_std_fds os (flags_of flags).no_reopen_std_fds (swept os (flags_of flags) p)
unfolding become_daemon start_session detach
become_daemon-swept os flags p w = rw (w.first, w.session, w.second) refl

swept-fds :
    (os : System) (f : Flags) (p : Process) (fd : ℕ)
    → (swept os f p).fds fd
      ≡ (if f.no_close_file then p.fds fd else if ltb fd (max_fd os) then none else p.fds fd)
swept-fds os f p fd =
    let (leader, terminal, mask, dir, fds) =
      prepared-fields f.no_umask f.no_chdir (forked (new_session (forked p))) in
    close_files-fds os f.no_close_file (prepared f p) fd
    ∙ ap
        (λ (g : ℕ → Option File).
          if f.no_close_file then g fd else if ltb fd (max_fd os) then none else g fd)
        fds

swept-IsDaemon :
    (os : System) (f : Flags) (p : Process) (q : Process)
    → Alike (swept os f p) q
    → ((fd : ℕ) → q.fds fd ≡ fds_of os f p fd)
    → IsDaemon os f p q
swept-IsDaemon os f p q same fds_are =
    let (leader, terminal, mask, dir, fds) =
      prepared-fields f.no_umask f.no_chdir (forked (new_session (forked p))) in
    let (m, d, l, t) = close_files-Alike os f.no_close_file (prepared f p) in
    record {
      no_leader = same.2 ∙ l ∙ leader;
      no_terminal = same.3 ∙ t ∙ terminal;
      mask_is = same.0 ∙ m ∙ mask;
      dir_is = same.1 ∙ d ∙ dir;
      fds_are = fds_are;
    }

std_null-fds :
    (os : System) (f : Flags) (p : Process) (fd : ℕ)
    → f.no_reopen_std_fds ≡ false
    → (std_null (swept os f p)).fds fd ≡ fds_of os f p fd
std_null-fds os f p fd e = elim (Bool-cases (ltb fd 3)) [
  | inl std ↦ rw (e, std) (ground arith)
  | inr other ↦
      let same : (std_null (swept os f p)).fds fd ≡ (swept os f p).fds fd = ground arith in
      rw (e, other) (same ∙ swept-fds os f p fd)
]

reopened-IsDaemon :
    (os : System) (f : Flags) (p : Process) (b : Bool)
    → f.no_reopen_std_fds ≡ b
    → IsWilling os f
    → 3 ≤ max_fd os
    → let after = reopen_std_fds os b (swept os f p) in
      (after.0 ≡ success) × IsDaemon os f p after.1
unfolding reopen_std_fds
reopened-IsDaemon os f p true e w h = (
  refl,
  swept-IsDaemon os f p (swept os f p) (refl, refl, refl, refl) λ fd. rw e (swept-fds os f p fd),
)
reopened-IsDaemon os f p false e w h =
    rw (reopen_lem os (swept os f p) (max_fd os - 3) (omega (arith, h)) (w.null e)) (
      refl,
      swept-IsDaemon os f p (std_null (swept os f p)) (refl, refl, refl, refl)
          λ fd. std_null-fds os f p fd e,
    )

-- Where the system refuses no call, and at least three descriptors can be open, becomeDaemon
-- succeeds in the second child and leaves a daemon: no session leader, no terminal; mask and
-- working directory as their flags say; and for every descriptor exactly what its flags say: 0, 1
-- and 2 are "/dev/null" unless BD_NO_REOPEN_STD_FDS is set, and every other one below the limit,
-- and these three too where they are not opened again, is closed unless BD_NO_CLOSE_FILE is set.
-- Any other descriptor is as it was.
pub become_daemon-IsDaemon :
    (os : System) (flags : ℕ) (p : Process)
    → IsWilling os (flags_of flags)
    → 3 ≤ max_fd os
    → ((become_daemon os flags p).0 ≡ success)
      × IsDaemon os (flags_of flags) p (become_daemon os flags p).1
become_daemon-IsDaemon os flags p w h =
    rw (become_daemon-swept os flags p w)
      (reopened-IsDaemon os (flags_of flags) p (flags_of flags).no_reopen_std_fds refl w h)

null_needed :
    (os : System) (b : Bool) (p : Process)
    → (reopen_std_fds os b p).0 ≡ success
    → b ≡ false
    → os.null_ok ≡ true
unfolding reopen_std_fds reopen open_null
null_needed os true p e new = absurd cc
null_needed os false p e new = ground arith

detach-second :
    (os : System) (f : Flags) (p : Process) (r : Forked)
    → (detach os f p r).0 ≡ success
    → (r ≡ in_child) × (f.no_reopen_std_fds ≡ false → os.null_ok ≡ true)
unfolding detach
detach-second os f p fork_failed e = absurd cc
detach-second os f p in_parent e = absurd cc
detach-second os f p in_child e = (
  refl,
  null_needed os f.no_reopen_std_fds
      (close_files os f.no_close_file (change_dir f.no_chdir (clear_umask f.no_umask (forked p))))
      e,
)

through_if :
    (b : Bool) (then_case : Ended × Process) (q : Process)
    → (if b then then_case else (failure, q)).0 ≡ success
    → (b ≡ true) × (then_case.0 ≡ success)
through_if true then_case q e = (refl, e)
through_if false then_case q e = absurd cc

start_session-first :
    (os : System) (f : Flags) (p : Process) (r : Forked)
    → (start_session os f p r).0 ≡ success
    → (r ≡ in_child)
      × (os.setsid_ok ≡ true)
      × ((detach os f (new_session (forked p)) os.fork_second).0 ≡ success)
unfolding start_session
start_session-first os f p fork_failed e = absurd cc
start_session-first os f p in_parent e = absurd cc
start_session-first os f p in_child e =
    let (ok, rest) =
      through_if os.setsid_ok (detach os f (new_session (forked p)) os.fork_second) (forked p) e in
    (refl, ok, rest)

-- becomeDaemon returns 0 only where both forks and setsid have succeeded and the process is the
-- child of both, and, unless the flag turns that part off, "/dev/null" can be opened.
pub success-IsWilling :
    (os : System) (flags : ℕ) (p : Process)
    → (become_daemon os flags p).0 ≡ success
    → IsWilling os (flags_of flags)
unfolding become_daemon
success-IsWilling os flags p e =
    let (first, session, rest) = start_session-first os (flags_of flags) p os.fork_first e in
    let (second, null) =
      detach-second os (flags_of flags) (new_session (forked p)) os.fork_second rest in
    record { first = first; session = session; second = second; null = null }
