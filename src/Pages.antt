-- ===== src/Pages.antt =====
-- The pages of the dashboard, panel/app/(dash)/*/page.tsx, one module each.
pub mod Providers
pub mod Connections
pub mod Policy
pub mod Loading
pub mod Marketplace
pub mod Teams
pub mod Users
pub mod Alerts
pub mod Documents
pub mod Knowledge
pub mod Conversations
pub mod Audit
pub mod Dashboard
pub mod Settings
pub mod Tests
