-- ===== src/Containers.antt =====
-- The in-place containers (sys.Containers).
pub mod Queue
pub mod Vector
pub mod Set
pub mod AtomicSet
pub mod String
