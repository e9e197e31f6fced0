-- ===== src/Threads.antt =====
-- support/threading/: the locks that the support library makes of atomic variables, as steps of
-- threads that share memory. Each step is one access of one thread to an atomic variable, in any
-- order of the threads.
pub mod Family
pub mod RwLock
pub mod Exclusion
pub mod Waiting
pub mod Attempt
pub mod Spin
