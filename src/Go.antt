-- ===== src/Go.antt =====
-- What the program uses of Go itself: its integers, floats, times, maps and text functions.
pub mod Int
pub mod Float64
pub mod Time
pub mod Dict
pub mod Text
