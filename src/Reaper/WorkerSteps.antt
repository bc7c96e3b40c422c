-- ===== src/Reaper/WorkerSteps.antt =====
-- A step of a thread keeps the invariant.
use my_linux_demo.Base.{ℕ, ◌<◌, ◌≡◌, some, arith, total-assign}
use my_linux_demo.Reaper.{ts_terminated, Worker, absent, ended, System, threadfun}
use my_linux_demo.Reaper.Invariant.{terminated, unjoined, Inv}

module _ (n : ℕ) (s : System) (inv : Inv n s) (i : ℕ) (l : i < n) where
  -- One step of `threadfun`, wherever the thread stands.
  pub threadfun-Inv :
      (w : Worker) → s.workers i ≡ w → (t : System) → threadfun s i w ≡ some t → Inv n t
  unfolding threadfun
  threadfun-Inv absent e t h = cc
  threadfun-Inv ended e t h = cc
  threadfun-Inv w e t h = record {
    worker_owns = λ k lk q. ground (arith, inv.worker_owns k lk, inv.worker_owns i l);
    main_owns = λ q. ground (arith, inv.main_owns, inv.worker_owns i l);
    owner_in = λ k q. ground (arith, inv.owner_in k, inv.worker_owns i l);
    owner_main = λ q. ground (arith, inv.owner_main, inv.worker_owns i l);
    paired = λ k lk. ground (arith, inv.paired k lk, inv.paired i l);
    created = λ k lk. ground (arith, inv.created k lk);
    awaited = λ k lk. ground (arith, inv.awaited k lk, inv.awaited i l);
    counted = ground (
      arith,
      inv.counted,
      inv.paired i l,
      total-assign terminated n s.thread_state i ts_terminated l,
    );
    live =
        ground (
          arith,
          inv.live,
          inv.paired i l,
          total-assign unjoined n s.thread_state i ts_terminated l,
        );
  }
