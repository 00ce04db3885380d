-- ===== src/Lib.antt =====
-- The OBD-II and UDS simulator of an STM32G4 node: its transport protocol, its diagnostic session
-- manager, its simulated vehicle with trouble codes, and its flash bootloader.
--
-- Parts and files
-- - Can: the addressing of Core/Inc/can_addressing.h. Can/Frames: the frame lengths of
--   Core/Src/fdcan_config.c (FDCAN_BytesToDlc, the DLC table of the receive callback) and the
--   frame that is handed to the driver. Can/Ring: the ring buffer that the receive callback fills
--   and the bootloader's main loop empties; Can/Ring/Refine is about it as a queue.
-- - IsoTp: Core/Src/iso_tp.c, ISO 15765-2 over CAN FD. IsoTp/Context has the control block
--   (ISO_TP_Context_t, record Context) and the ports: HAL_GetTick, HAL_FDCAN_AddMessageToTxFifoQ
--   and the stream sink are parameters over a state of their own, and a World is the statics, that
--   state and a log of the outputs. IsoTp/Transmit is the sending half, IsoTp/Receive the
--   receiving half, IsoTp/Tick the tick; each C function is the function of the same name in snake
--   case, without the prefix ISO_TP_, and long ones are cut into named steps. IsoTp/Invariant is
--   about the representation invariant, IsoTp/FlowControl about wait frames and the independence
--   of the two halves, IsoTp/RoundTrip about messages from one node to another, IsoTp/Timeout
--   about ticks without frames, IsoTp/Service about what a frame makes the service layer do.
-- - Session: Core/Src/diag_session.c (sessions, seed and key, lockout, S3 timeout). Session/Access:
--   its access table. The i-th reading of HAL_GetTick in a call is the value at i of a function.
-- - Flash: Core/Src/ota_flash.c over the HAL's driver, which is a parameter; what the reference
--   manual says of it is FlashLaws in Flash/Write, used only where a theorem needs it.
-- - Boot: Core/Src/bl_boot.c and the boot gate of Core/Src/bl_main.c, with the memory map of
--   Core/Inc/bl_handoff.h. Boot/Server: the flash server of Core/Src/bl_uds.c; its handlers are in
--   Boot/Server and Boot/Server/Transfer, its dispatcher and the round of the main loop in
--   Boot/Server/Dispatch. Boot/Server/Keys is about what it takes to unlock it,
--   Boot/Server/Rollback about the rollback counter. Boot/Node: the bootloader as a whole, the
--   main loop of Core/Src/bl_main.c with ring, transport and server; Boot/Node/Run,
--   Boot/Node/Locked and Boot/Node/Rollback are about its runs.
-- - Obd2: Core/Src/obd2_simulator.c, the ramps and the Mode 01 answers; Obd2/Dtc: its trouble codes;
--   Obd2/Dtc/Report: what is read of them.
-- - Uds: Core/Src/uds_service.c, the application's services, over one record App: its statics, those
--   of the session manager and of the simulation, the reset request and the hand-over record. Each
--   handler is the function of the same name; Uds/Sources is what data identifiers stand for,
--   Uds/Control, Uds/ReadWrite, Uds/Dynamic, Uds/Periodic, Uds/ReadDtc and Uds/Obd are the handlers,
--   Uds/Dispatch is UDS_DispatchRequest. Memory that is read through a pointer is a function of the
--   address. Uds/Shape, Uds/Subscriptions, Uds/Invariant and Uds/Bounds are about the invariant and
--   the sizes of responses, Uds/Policy and Uds/Handover about who may do what, Uds/Table and
--   Uds/Slices about dynamic identifiers, Uds/Cadence about periodic transmission, Uds/Counts about
--   0x19, Uds/Vin and Uds/Routine about one service each.
-- - Task: the round of vMainTask in Core/Src/main.c, and sequences of rounds and requests.
--   Task/Supervision: what it does about the watchdog, with the marks of the other tasks;
--   Task/Recovery: its restart of an error-passive CAN controller. Task/Controller: the set-up of
--   the controller in Core/Src/fdcan_config.c and its re-initialisation after bus-off, over the HAL's
--   FDCAN driver, which is a parameter; what the HAL documents is CanLaws in Task/Controller/Setup.
--   Task/Errors: the two error callbacks of Core/Src/main.c and what vMainTask does about them, cut
--   into steps between which an interrupt may come.
-- - Rs485: Core/Src/rs485.c and the routing of vRS485Task in Core/Src/main.c.
-- - Ecu: the application as a whole, Uds as the service layer of IsoTp, as vCanRxTask of
--   Core/Src/main.c runs it on a received frame; Ecu/Answer is about a request in one frame,
--   Ecu/Run and Ecu/Invariant about runs of frames and rounds of vMainTask.
-- - Prelude: Boolean tests, lists, words and C buffers that the parts share.
--
-- How they meet: the receive callback gives a frame with its length (Can/Frames) to process_frame,
-- which ends in a call of the service layer (UDS_DispatchRequest, the parameter Dispatch) and, for
-- a response, in send_response. The bootloader's service layer is dispatch_request of
-- Boot/Server/Dispatch, which uses Session, Flash and Boot; the application's is dispatch_request
-- of Uds/Dispatch, put below the transport in Ecu, which uses Session and Obd2, and hands over to
-- Boot through a record in RAM. A session that falls back to the default one calls into the
-- trouble codes and the periodic transmission, which Session takes as the parameter restore; Uds
-- gives it those calls.
--
-- Bounds: integers are natural numbers with the wrap-around of the C type written out (u8, u16,
-- u32, sub32). The loop of ota_flash_write runs on fuel, one unit for each byte left to write: a
-- round takes up to eight bytes, so the fuel is enough. The loop of the bootloader that drains the
-- ring runs on fuel 8, since the ring holds seven messages; interrupts come between its rounds.
-- Other loops are structural.
--
-- Not modelled: FreeRTOS tasks, queues and critical sections (each operation is one step, but for
-- the error handling in Task/Errors), the set-up of clocks, pins and UARTs, the jump to the app,
-- debug output, and the UART driver.
pub mod Prelude
pub mod Can
pub mod IsoTp
pub mod Session
pub mod Flash
pub mod Boot
pub mod Obd2
pub mod Rs485
pub mod Uds
pub mod Task
pub mod Ecu
