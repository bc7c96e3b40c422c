-- ===== src/Daemon/Closing.antt =====
-- Descriptors after the loop that closes them, and after they are opened again.
use my_linux_demo.Base.{
  ℕ, zero, suc, ◌+◌, ◌≡◌, refl, Bool, true, false, none, some, arith, ltb, leb, ◌&&◌, if◌then◌else◌,
  assign,
}
use my_linux_demo.Daemon.{
  System, dev_null, Process, success, close, close_from, close_files, lowest_free, open_null,
  dup2_stdin, dup_err, dup_out, reopen, reopen_std_fds, max_fd,
}

-- The loop closes exactly the descriptors from `fd` on that it counts.
pub close_from-fds :
    (n : ℕ) (p : Process) (fd j : ℕ)
    → (close_from n p fd).fds j ≡ (if leb fd j && ltb j (fd + n) then none else p.fds j)
unfolding close_from
close_from-fds zero p fd j = ground arith
close_from-fds (suc n) p fd j = ground (arith, close_from-fds n (close p fd) (fd + 1) j)

-- Nothing else of the process changes.
pub close_from-same :
    (n : ℕ) (p : Process) (fd : ℕ)
    → ((close_from n p fd).mask ≡ p.mask)
      × ((close_from n p fd).in_root ≡ p.in_root)
      × ((close_from n p fd).is_leader ≡ p.is_leader)
      × ((close_from n p fd).has_terminal ≡ p.has_terminal)
unfolding close_from
close_from-same zero p fd = (refl, refl, refl, refl)
close_from-same (suc n) p fd = close_from-same n (close p fd) (fd + 1)

-- The standard descriptors refer to "/dev/null".
abbrev pub std_null : Process → Process
std_null p = record p {
  fds =
      assign (assign (assign (assign p.fds 0 none) 0 (some dev_null)) 1 (some dev_null)) 2
        (some dev_null);
}

-- With descriptor 0 closed, `open` takes it, and the two others follow.
pub reopen_lem :
    (os : System) (p : Process) (n : ℕ)
    → max_fd os ≡ suc (suc (suc n))
    → os.null_ok ≡ true
    → reopen_std_fds os false p ≡ (success, std_null p)
unfolding reopen_std_fds reopen open_null lowest_free dup_out dup_err dup2_stdin
reopen_lem os p n e ok =
    let one : ltb 1 (suc (suc (suc n))) ≡ true = ground arith in
    let two : ltb 2 (suc (suc (suc n))) ≡ true = ground arith in simp (ok, e, one, two) refl

pub close_files-fds :
    (os : System) (b : Bool) (p : Process) (j : ℕ)
    → (close_files os b p).fds j
      ≡ (if b then p.fds j else if ltb j (max_fd os) then none else p.fds j)
unfolding close_files
close_files-fds os true p j = refl
close_files-fds os false p j = ground (arith, close_from-fds (max_fd os) p 0 j)

-- What the descriptors have no part in.
abbrev pub Alike : Process → Process → Type 0
Alike p q =
    (q.mask ≡ p.mask)
    × (q.in_root ≡ p.in_root)
    × (q.is_leader ≡ p.is_leader)
    × (q.has_terminal ≡ p.has_terminal)

pub close_files-Alike : (os : System) (b : Bool) (p : Process) → Alike p (close_files os b p)
unfolding close_files
close_files-Alike os true p = (refl, refl, refl, refl)
close_files-Alike os false p = close_from-same (max_fd os) p 0
