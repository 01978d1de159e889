-- ===== src/Object.antt =====
-- src/object: objects on the heap, and the registries that hold weak pointers to them.
pub mod Heap
pub mod Registry
pub mod Live
pub mod Living
