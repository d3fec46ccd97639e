-- ===== src/Tests.antt =====
-- Concrete inputs: the theorems applied to them, and runs of the definitions.
mod Platform
mod Memory
mod Queue
mod Contexts
mod Batch
mod Heap
mod Session
mod Playing
mod Interleave
mod Signal
mod Wires
mod Whole
mod Sleep
mod Starting
mod Windows
