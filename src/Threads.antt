-- ===== src/Threads.antt =====
-- The threaded programs under examples/: a `main` that starts threads and joins them, and the
-- discipline that keeps the accesses of the threads apart.
pub mod Pool
pub mod PerThreadArrayIndex
pub mod PerThreadArrayPtr
pub mod PerThreadStructInArray
pub mod PerThreadArrayInit
pub mod ThreadLocalValue
pub mod ThreadLocalPthreadValue
pub mod ThreadLocalPthreadValueCond
pub mod AtomicGcc
pub mod SemaphorePosix
pub mod PerThreadIndexInc
pub mod ValueBarrier
pub mod PerThreadStruct
pub mod ThreadJoinCounterOuter
pub mod ThreadJoinCounterInner
pub mod ThreadJoinArrayConst
pub mod ThreadJoinArrayDynamic
