-- ===== src/Osc.antt =====
-- src/oscmix_desk/osc.py: OSC 1.0 strings and the framing of a datagram.
pub mod Strings
pub mod Numbers
pub mod Codec
pub mod RoundTrip
pub mod Bundle
pub mod Framing
pub mod Framed
mod Tests
