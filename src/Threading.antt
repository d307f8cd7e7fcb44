-- ===== src/Threading.antt =====
-- The threading primitives (sys.Threading), with threads as indices and any interleaving of their steps.
pub mod Errors
pub mod Exclusive
pub mod Once
pub mod Semaphore
pub mod Mutex
pub mod CondVar
pub mod Thread
