-- ===== src/Fzy.antt =====
-- examples/fzy.c, the program fzy: it lists the lines of its input that match what the user types.
pub mod Chars
pub mod Scores
pub mod Choices
pub mod Terminal
pub mod Match
pub mod Line
pub mod Screen
pub mod Search
pub mod Reading
pub mod Interface
