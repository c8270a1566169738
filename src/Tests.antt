-- ===== src/Tests.antt =====
-- Runs of the definitions on small inputs, and the theorems at inputs that meet their hypotheses.
mod Ranges
mod Spaces
mod Policies
mod Scanner
mod Objects
mod Stacks
mod Origins
mod Maintainers
mod Lists
mod Subsets
mod Expansion
mod Copies
mod Names
mod PeeringSets
