-- ===== src/Switch.antt =====
-- h-app/core/service.py: the switch, from the retries of one command to the place of a popped frame.
pub mod Retry
pub mod Forward
pub mod Effects
pub mod Custody
pub mod Reads
pub mod Conservation
pub mod Broadcasts
pub mod Placement
pub mod Steps
pub mod Senders
mod Tests
mod StepTests
