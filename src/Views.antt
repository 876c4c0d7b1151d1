-- ===== src/Views.antt =====
-- What the views and panels of the front end compute from the state (frontend/src/views and
-- frontend/src/components).
pub mod Settings
pub mod Reachability
pub mod Shares
pub mod Health
pub mod Checks
pub mod Bar
pub mod Incident
mod Tests
