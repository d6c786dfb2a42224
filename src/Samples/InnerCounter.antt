-- ===== src/Samples/InnerCounter.antt =====
-- A run of thread-join-counter-inner with one thread, at which its theorem is applied.
use clang_witness_inject.Prelude.{◌≡◌, refl, arith}
use clang_witness_inject.Threads.ThreadJoinCounterInner.{
  finished, start, later, go, again, all_created, all_leave, all_lock, all_unlock, create,
  data_lock, data_unlock, decrement, increment, keep_lock, keep_unlock, last_unlock, leave,
  none_leave, none_lock, none_unlock, off_lock, off_unlock, on_lock, on_unlock, stop, stop_lock,
  stop_unlock, work, write,
}
use clang_witness_inject.Threads.ThreadJoinCounterInner.Stopped.{counter_inner_all_finished}

counter_inner_all_finished_example : finished ≡ finished
counter_inner_all_finished_example =
    counter_inner_all_finished {random = 1}
      (later
        (later
          (later
            (later
              (later
                (later
                  (later
                    (later
                      (later
                        (later
                          (later
                            (later
                              (later
                                (later
                                  (later
                                    (later
                                      (later
                                        (later
                                          (later
                                            (later
                                              (later
                                                (later
                                                  (later
                                                    (later
                                                      (later
                                                        (later start (create 0 refl (omega arith)))
                                                        (go refl (all_created _ 1 (omega arith))))
                                                      (work 0 refl (on_lock _ refl)))
                                                    (work 0 refl (increment _)))
                                                  (work 0 refl (on_unlock _)))
                                                (go refl (all_lock _ refl)))
                                              (go refl (all_leave _ refl)))
                                            (go refl (all_unlock _)))
                                          (work 0 refl (keep_lock _ refl)))
                                        (work 0 refl (again _ refl)))
                                      (work 0 refl (keep_unlock _)))
                                    (work 0 refl (data_lock _ refl)))
                                  (work 0 refl (write _ 6)))
                                (work 0 refl (data_unlock _)))
                              (go refl (stop_lock _ refl)))
                            (go refl (stop _)))
                          (go refl (stop_unlock _)))
                        (work 0 refl (keep_lock _ refl)))
                      (work 0 refl (leave _ refl)))
                    (work 0 refl (last_unlock _)))
                  (work 0 refl (off_lock _ refl)))
                (work 0 refl (decrement _)))
              (work 0 refl (off_unlock _)))
            (go refl (none_lock _ refl)))
          (go refl (none_leave _ refl)))
        (go refl (none_unlock _)))
      refl 0 refl
