-- ===== src/DeepCopy.antt =====
-- The deep copies of api/v1alpha1/zz_generated.deepcopy.go, on the heap of Memory: the structs of the
-- resources, with what stands for their references left open, the cells they lie in, the copies of
-- each resource, what is seen of them, and that a copy is independent of its original.
pub mod Structs
pub mod Cells
pub mod Trees
pub mod Object
pub mod Policy
pub mod Report
pub mod Action
pub mod Independent
mod Tests
