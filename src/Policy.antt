-- ===== src/Policy.antt =====
-- policy/: the tree of a routing policy, and what EXCEPT and REFINE mean.
pub mod AsPath
pub mod Ast
pub mod Afi
pub mod Flatten
