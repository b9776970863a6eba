-- ===== src/Whatsapp.antt =====
-- src/modules/whatsapp-ticket-requests/whatsapp-ticket-requests.service.ts: visitors ask for their
-- ticket by a WhatsApp message that carries a link's token. README.md speaks of a message without one.
pub mod Texts
pub mod Message
pub mod Rows
pub mod Services
pub mod Claims
pub mod Requests
pub mod Issue
pub mod Bound
pub mod Race
pub mod Keeps
pub mod Warrant
pub mod Recipients
pub mod Duplicates
pub mod Sends
pub mod Links
mod Tests
