-- ===== src/Decimal.antt =====
-- Decimal arithmetic: src/lib/decimalMath.ts, on big integers. Errors are `none`. A signed integer is
-- its sign and its magnitude. Arguments are texts, and results are texts as lists of code points. A
-- number that `roundToScale` is given is the text that it prints as.
pub mod Parts
pub mod Operations
pub mod Formats
pub mod Rounding
pub mod Quotients
pub mod Divisions
pub mod NumericBounds
pub mod Comparisons
mod Tests
mod QuotientTests
