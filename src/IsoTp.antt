-- ===== src/IsoTp.antt =====
-- The ISO 15765-2 transport layer, Core/Src/iso_tp.c and Core/Inc/iso_tp.h.
pub mod Context
pub mod Transmit
pub mod Receive
pub mod Tick
pub mod Service
pub mod Timeout
pub mod Invariant
pub mod RoundTrip
pub mod FlowControl
mod Tests
