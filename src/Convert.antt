-- ===== src/Convert.antt =====
-- project_about/feedproxy/convertservice/convert_utils.h: what `ConvertUtils` makes of the fields of a
-- message: codes of markets, currencies and k-lines, times of day, and quotes that come in parts.
pub mod Codes
pub mod Known
pub mod Clock
pub mod HumanTime
pub mod Quote
pub mod Levels
pub mod Deltas
mod Tests
