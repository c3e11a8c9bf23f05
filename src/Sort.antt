-- ===== src/Sort.antt =====
-- algorithm_about/sort_about: the sorts of the repository. An `int` is an integer, as only the order
-- of the items matters; the counting sorts take natural numbers, which their arrays are indexed by.
pub mod Merge
pub mod Quick
pub mod Counting
pub mod Heap
mod Tests
