-- ===== src/Samples/Interleavings.antt =====
-- Runs of the threaded programs, at which their theorems are applied.
use clang_witness_inject.Prelude.{ℕ, ◌+◌, ◌≡◌, refl, false, none, some, arith}
use clang_witness_inject.Threads.Pool.{update, start, later, create, create_fails, work}
use clang_witness_inject.Threads.Pool.Tally.{sum}
use clang_witness_inject.Threads.PerThreadArrayInit as Init
use clang_witness_inject.Threads.AtomicGcc as Atomic
use clang_witness_inject.Threads.PerThreadIndexInc as Inc
use clang_witness_inject.Threads.PerThreadIndexInc.Indices as Indices
use clang_witness_inject.Threads.ValueBarrier as Barrier
use clang_witness_inject.Threads.ValueBarrier.Order as Order

abbrev zeroed : ℕ → ℕ
zeroed a = 0

array_init_reads_own_example : ◌≡◌ {A = ℕ} 1 1
array_init_reads_own_example =
    Init.array_init_reads_own 2 {g = record { cells = zeroed }}
      (later (later (later start (create_fails 0 refl (omega arith))) (create 1 refl (omega arith)))
        (work 1 refl (Init.read _ 1)))
      1 refl

atomic_counts_example : ◌≡◌ {A = ℕ} 1 (0 + 1 + 0)
unfolding sum
atomic_counts_example = Atomic.atomic_counts 2 (
    later (later (later start (create 0 refl (omega arith))) (create 1 refl (omega arith)))
      (work 1 refl (Atomic.fetch_and_add _)))

index_inc_own_cell_example : ◌≡◌ {A = ℕ} 0 0
index_inc_own_cell_example =
    Indices.index_inc_own_cell 1 {datas = zeroed}
      (later
        (later
          (later (later (later start (create 0 refl (omega arith))) (work 0 refl (Inc.lock _ refl)))
            (work 0 refl (Inc.read _)))
          (work 0 refl (Inc.increment _ 0)))
        (work 0 refl (Inc.unlock _ 0)))
      0 0 refl refl

-- Round 0 creates a thread, which waits until `main` is ready.
abbrev waiting : Barrier.System
waiting = record {
  shared = record { value = 0; ready = false; mutex = false };
  main = Barrier.writing;
  threads =
      update (update (update (λ i. none) 0 (some Barrier.locking)) 0 (some Barrier.testing)) 0
        (some Barrier.sleeping);
}

abbrev waits : Barrier.Reach 1 waiting
waits =
    Barrier.later
      (Barrier.later
        (Barrier.later (Barrier.later Barrier.start (Barrier.create 0 refl (omega arith)))
          (Barrier.work 0 refl (Barrier.lock _ refl)))
        (Barrier.work 0 refl (Barrier.wait _ refl)))
      (Barrier.all_created 1 refl (omega arith))

barrier_reads_written_example : ◌≡◌ {A = ℕ} 8 8
barrier_reads_written_example =
    Order.barrier_reads_written
      (Barrier.later
        (Barrier.later
          (Barrier.later
            (Barrier.later
              (Barrier.later
                (Barrier.later
                  (Barrier.later
                    (Barrier.later (Barrier.later waits (Barrier.go refl (Barrier.write _ 8)))
                      (Barrier.go refl (Barrier.main_lock _ refl)))
                    (Barrier.go refl (Barrier.set _)))
                  (Barrier.go refl (Barrier.broadcast _)))
                (Barrier.go refl (Barrier.main_unlock _)))
              (Barrier.work 0 refl (Barrier.wake _ refl)))
            (Barrier.work 0 refl (Barrier.leave _ refl)))
          (Barrier.work 0 refl (Barrier.unlock _)))
        (Barrier.work 0 refl (Barrier.read _)))
      0 refl
