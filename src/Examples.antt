-- ===== src/Examples.antt =====
-- Tests of the models at concrete inputs, and the theorems at inputs that meet their hypotheses.
mod Numbers
mod Floats
mod Strings
mod Casing
mod Containers
mod Queues
mod Vectors
mod Results
mod Threads
mod Sets
mod InplaceStrings
mod Guards
mod ManagedThreads
mod Mutexes
