-- ===== src/Runtime.antt =====
-- What the program runs on, as far as the modelled operations touch it: exceptions, files, and a
-- database session over the rows of one item.
pub mod Errors
pub mod Files
pub mod Floats
pub mod Session
