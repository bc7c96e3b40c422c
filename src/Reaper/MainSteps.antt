-- ===== src/Reaper/MainSteps.antt =====
-- A step of `main` keeps the invariant.
use my_linux_demo.Base.{ℕ, ◌<◌, ◌≡◌, some, arith, ltb, total-assign, le-total, Bool-cases, inl, inr}
use my_linux_demo.Reaper.{
  ts_alive, ts_joined, Main, creating, waits, scanning, returned, System, scan, main_thread_step,
}
use my_linux_demo.Reaper.Invariant.{terminated, unjoined, Inv}

module _ (n : ℕ) (s : System) (inv : Inv n s) where
  scan-Inv :
      (idx : ℕ) → s.main ≡ scanning idx → idx < n → (t : System) → scan s idx ≡ some t → Inv n t
  unfolding scan
  scan-Inv idx e l t h = record {
    worker_owns = λ k lk q. ground (arith, inv.worker_owns k lk);
    main_owns = λ q. ground (arith, inv.main_owns);
    owner_in = λ k q. ground (arith, inv.owner_in k);
    owner_main = λ q. ground (arith, inv.owner_main);
    paired = λ k lk. ground (arith, inv.paired k lk, inv.paired idx l);
    created = λ k lk. ground (arith, inv.created k lk);
    awaited = λ k lk. ground (arith, inv.awaited k lk);
    counted = ground (arith, inv.counted, total-assign terminated n s.thread_state idx ts_joined l);
    live = ground (arith, inv.live, total-assign unjoined n s.thread_state idx ts_joined l);
  }

  pub main-Inv : (m : Main) → s.main ≡ m → (t : System) → main_thread_step n s m ≡ some t → Inv n t
  unfolding main_thread_step
  main-Inv (creating idx) e t h = elim (Bool-cases (ltb idx n)) [
    | inl more ↦ record {
      worker_owns = λ k lk q. ground (arith, inv.worker_owns k lk, inv.created k lk);
      main_owns = λ q. ground (arith, inv.main_owns);
      owner_in = λ k q. ground (arith, inv.owner_in k, inv.created idx);
      owner_main = λ q. ground (arith, inv.owner_main);
      paired = λ k lk. ground (arith, inv.paired k lk);
      created = λ k lk. ground (arith, inv.created k lk, inv.created idx);
      awaited = λ k lk. ground (arith, inv.awaited k lk);
      counted = ground (
        arith,
        inv.counted,
        inv.created idx,
        inv.paired idx,
        total-assign terminated n s.thread_state idx ts_alive,
      );
      live = ground (
        arith,
        inv.live,
        inv.created idx,
        inv.paired idx,
        total-assign unjoined n s.thread_state idx ts_alive,
      );
    }
    | inr all ↦ record {
      worker_owns = λ k lk q. ground (arith, inv.worker_owns k lk);
      main_owns = λ q. ground (arith, inv.main_owns);
      owner_in = λ k q. ground (arith, inv.owner_in k);
      owner_main = λ q. ground (arith, inv.owner_main);
      paired = λ k lk. ground (arith, inv.paired k lk);
      created = λ k lk. ground (arith, inv.created k lk);
      awaited = λ k lk. ground (arith, inv.awaited k lk);
      counted = ground (arith, inv.counted);
      live = ground (arith, inv.live);
    }
  ]
  main-Inv waits e t h = cc
  main-Inv returned e t h = cc
  main-Inv (scanning idx) e t h = elim (Bool-cases (ltb idx s.tot_threads)) [
    | inl more ↦ scan-Inv idx e (ground (arith, inv.live)) t (ground arith)
    | inr all ↦ record {
      worker_owns = λ k lk q. ground (arith, inv.worker_owns k lk);
      main_owns = λ q. ground (arith, inv.main_owns);
      owner_in = λ k q. ground (arith, inv.owner_in k);
      owner_main = λ q. ground (arith, inv.owner_main);
      paired = λ k lk. ground (arith, inv.paired k lk);
      created = λ k lk. ground (arith, inv.created k lk);
      awaited = λ k lk. ground (arith, inv.awaited k lk);
      counted = ground (arith, inv.counted);
      live = ground (arith, inv.live);
    }
  ]
  main-Inv m e t h = record {
    worker_owns = λ k lk q. ground (arith, inv.worker_owns k lk);
    main_owns = λ q. ground (arith, inv.main_owns);
    owner_in = λ k q. ground (arith, inv.owner_in k);
    owner_main = λ q. ground (arith, inv.owner_main, inv.owner_in);
    paired = λ k lk. ground (arith, inv.paired k lk);
    created = λ k lk. ground (arith, inv.created k lk);
    awaited = λ k lk. ground (
      arith,
      inv.awaited k lk,
      inv.paired k lk,
      inv.counted,
      le-total terminated n s.thread_state k lk,
    );
    counted = ground (arith, inv.counted);
    live = ground (arith, inv.live);
  }
