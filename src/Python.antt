-- ===== src/Python.antt =====
-- The values of the language that the program handles as it finds them: JSON frames from a client,
-- documents from a cache. A `dict` keeps its order of insertion and has text keys.
-- Floats are scaled integers: a finite one is a whole number of units of 2^-22, which is the
-- spacing of the doubles around today's `time.time()`; a finer one is not modelled, and sums of
-- floats are not rounded.
pub mod Convert
pub mod Text
pub mod Floats
mod Values
mod Dict
pub use Values.*
unfoldable pub use Dict.*
