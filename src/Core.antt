-- ===== src/Core.antt =====
-- include/kjdmud/core/Errors.hpp and the parts of the C++ standard library that the driver's
-- text code calls: byte strings, character classes, decimal conversion.
pub mod Errors
pub mod Text
pub mod Decimal
pub mod Split
pub mod Unsigned
