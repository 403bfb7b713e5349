-- ===== src/Caep.antt =====
-- signals/caep: security event tokens, the revocation cache of a PEP, its receiver, and the
-- transmitter of the control plane.
pub mod Cache
pub mod Tokens
pub mod Receiver
pub mod Transmitter
pub mod Command
