-- ===== src/Samples/Counter.antt =====
-- A run of thread-join-counter-outer with one thread, at which its theorem is applied.
use clang_witness_inject.Prelude.{◌≡◌, refl, arith}
use clang_witness_inject.Threads.ThreadJoinCounterOuter.{
  finished, data_lock, write, data_unlock, alive_lock, decrement, alive_unlock, lock, increment,
  unlock, all_created, wait_lock, wait, wake, leave, wait_unlock, create, go, work, start, later,
}
use clang_witness_inject.Threads.ThreadJoinCounterOuter.Stopped.{counter_outer_all_finished}

counter_outer_all_finished_example : finished ≡ finished
counter_outer_all_finished_example =
    counter_outer_all_finished {random = 1}
      (later
        (later
          (later
            (later
              (later
                (later
                  (later
                    (later
                      (later
                        (later
                          (later
                            (later
                              (later
                                (later
                                  (later (later start (go refl (lock _ 0 (omega arith) refl)))
                                    (go refl (increment _ 0)))
                                  (go refl (unlock _ 0)))
                                (create 0 refl))
                              (go refl (all_created _ 1 (omega arith))))
                            (go refl (wait_lock _ refl)))
                          (go refl (wait _ (λ e. omega (arith, e)))))
                        (work 0 refl (data_lock _ refl)))
                      (work 0 refl (write _ 4)))
                    (work 0 refl (data_unlock _)))
                  (work 0 refl (alive_lock _ refl)))
                (work 0 refl (decrement _)))
              (work 0 refl (alive_unlock _)))
            (go refl (wake _ refl)))
          (go refl (leave _ refl)))
        (go refl (wait_unlock _)))
      refl 0 refl
