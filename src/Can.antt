-- ===== src/Can.antt =====
-- CAN addressing (Core/Inc/can_addressing.h) and the frame lengths of Core/Src/fdcan_config.c.
pub mod Frames
pub mod Ring
mod Tests
use obd_simulator.Prelude.{ℕ, ◌==◌, if◌then◌else◌}

pub data AddrType : Type 0 where
  addr_ignore addr_physical addr_functional : AddrType

abbrev pub can_id_functional_req : ℕ
can_id_functional_req = 0x7DF

abbrev pub can_id_physical_req : ℕ
can_id_physical_req = 0x7E0

abbrev pub can_id_physical_resp : ℕ
can_id_physical_resp = 0x7E8

-- CAN_Addr_Classify
unfoldable pub classify : ℕ → AddrType
classify can_id =
    if can_id == can_id_functional_req
    then addr_functional
    else if can_id == can_id_physical_req
    then addr_physical
    else addr_ignore
