-- ===== src/Markup.antt =====
-- What the components under frontend/src/components render.
pub mod Widgets
pub mod Dialogs
pub mod Fields
pub mod Modals
pub mod DomainForm
pub mod HookForm
pub mod ProjectForm
pub mod Resolve
pub mod References
pub mod Labels
pub mod DomainLabels
pub mod HookLabels
pub mod ProjectLabels
pub mod FormLabels
pub mod Alarms
pub mod Visible
pub mod SchemaAlarms
pub mod ProjectAlarms
pub mod FormAlarms
pub mod Layout
pub mod Cards
pub mod Offers
pub mod SettingsPage
pub mod SettingsOffers
pub mod ChecksTable
pub mod Projects
pub mod ProjectOffers
pub mod Heartbeat
pub mod LogLines
pub mod Panels
pub mod ChecksPanel
pub mod AboutPage
pub mod DayDialog
pub mod DayReach
pub mod Page
pub mod Reach
mod Tests
