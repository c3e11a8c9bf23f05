-- ===== src/Avl.antt =====
-- algorithm_about/binary_tree/AVL_tree.cpp: the tree and its recursive operations (`Tree`), the
-- operations on a stack of links (`Iter`), and what is shown of both.
pub mod Tree
pub mod Contents
pub mod Balance
pub mod Refines
pub mod Iter
mod Tests
