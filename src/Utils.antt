-- ===== src/Utils.antt =====
-- frontend/src/utils.ts: the formatting and the statistics that the views show.
pub mod Duration
pub mod Ago
pub mod Hue
pub mod Incidents
pub mod Checks
mod Tests
