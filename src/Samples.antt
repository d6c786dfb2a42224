-- ===== src/Samples.antt =====
-- Concrete documents, path functions, syntax trees and runs, at which the theorems are applied.
mod Documents
mod Files
mod Tree
mod Runs
mod Counter
mod InnerCounter
mod Interleavings
mod Lister
mod Searching
