-- ===== src/Envelope.antt =====
-- h-app/core/envelope.py: version-four frames with a fixed-width header and a JSON body.
pub mod Values
pub mod Checks
pub mod Header
pub mod Names
pub mod Frames
pub mod Parsing
pub mod Layout
pub mod Splices
pub mod Rewrites
pub mod Hops
pub mod Roundtrip
mod Tests
