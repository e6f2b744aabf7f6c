-- ===== src/Tests.antt =====
-- Concrete states of the queue, the registry and the allocator, on which the theorems are applied.
mod Queue
mod Registry
mod Mem
mod Calls
mod Sem
mod Timer
mod TimerTable
mod Locks
mod Trace
