-- ===== src/Auth.antt =====
-- src/quic_auth.rs: device authentication bound to a TLS channel. `Auth/Cache.antt` is the replay
-- cache, `Auth/Envelope.antt` the proof and its verification.
pub mod Cache
pub mod Envelope
