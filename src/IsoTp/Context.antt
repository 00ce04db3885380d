-- ===== src/IsoTp/Context.antt =====
-- The control block of Core/Inc/iso_tp.h, and what the layer calls: the FDCAN driver, the tick
-- counter and the stream sink.
use obd_simulator.Prelude.{ℕ, List, ◌∷◌, Bool, false, if◌then◌else◌, replicate}
use obd_simulator.Can.{AddrType, addr_ignore}
use obd_simulator.Can.Frames.{CanFrame}

abbrev pub max_message_size : ℕ
max_message_size = 512

abbrev pub ff_escape_threshold : ℕ
ff_escape_threshold = 4095

abbrev pub frame_size : ℕ
frame_size = 64

abbrev pub sf_max_payload : ℕ
sf_max_payload = 62

abbrev pub cf_payload_size : ℕ
cf_payload_size = 63

abbrev pub fc_block_size : ℕ
fc_block_size = 0

abbrev pub fc_stmin : ℕ
fc_stmin = 5

abbrev pub max_wft : ℕ
max_wft = 7

abbrev pub rx_timeout_ms : ℕ
rx_timeout_ms = 1000

abbrev pub tx_fc_timeout_ms : ℕ
tx_fc_timeout_ms = 1000

pub data RxState : Type 0 where
  rx_idle rx_wait_cf rx_complete : RxState

pub data TxState : Type 0 where
  tx_idle tx_wait_fc tx_send_cf : TxState

-- `stream_mode` holds 0 or 1 only and is a Boolean.
pub record Context : Type 0 where
  pub rx_state : RxState
  pub tx_state : TxState
  pub rx_buffer : List ℕ
  pub rx_total_size : ℕ
  pub rx_received : ℕ
  pub rx_expected_seq : ℕ
  pub rx_can_id : ℕ
  pub rx_addr_type : AddrType
  pub stream_mode : Bool
  pub tx_buffer : List ℕ
  pub tx_total_size : ℕ
  pub tx_sent : ℕ
  pub tx_seq : ℕ
  pub tx_can_id : ℕ
  pub tx_stmin : ℕ
  pub tx_block_size : ℕ
  pub tx_block_counter : ℕ
  pub tx_wait_frame_count : ℕ
  pub last_rx_tick : ℕ
  pub last_tx_tick : ℕ

-- ISO_TP_StreamEvent_t with the arguments of the sink: the bytes and the total size.
pub data StreamEvent : Type 0 where
  stream_begin : ℕ → StreamEvent
  stream_data : List ℕ → ℕ → StreamEvent
  stream_end : ℕ → StreamEvent
  stream_error : ℕ → StreamEvent

-- What leaves the layer: a frame handed to the driver, with the driver's answer, or a call of
-- the stream sink.
pub data Output : Type 0 where
  sent : CanFrame → Bool → Output
  notified : StreamEvent → Output

-- The code that the layer calls, over a state `E` of its own: `HAL_GetTick`,
-- `HAL_FDCAN_AddMessageToTxFifoQ` (true for HAL_OK) and the registered sink.
pub record Ports (E : Type 0) : Type 0 where
  pub get_tick : E → ℕ × E
  pub add_message : CanFrame → E → Bool × E
  pub on_stream : StreamEvent → E → E

-- The statics of iso_tp.c (`s_ctx`; whether `s_stream_sink` is set), the state of the code
-- around them, and a log of the outputs, latest first.
pub record World (E : Type 0) : Type 0 where
  pub ctx : Context
  pub stream_sink : Bool
  pub env : E
  pub out : List Output

-- ISO_TP_Init: all zero, both machines idle.
unfoldable pub init_ctx : Context
init_ctx = record {
  rx_state = rx_idle;
  tx_state = tx_idle;
  rx_buffer = replicate max_message_size 0;
  rx_total_size = 0;
  rx_received = 0;
  rx_expected_seq = 0;
  rx_can_id = 0;
  rx_addr_type = addr_ignore;
  stream_mode = false;
  tx_buffer = replicate max_message_size 0;
  tx_total_size = 0;
  tx_sent = 0;
  tx_seq = 0;
  tx_can_id = 0;
  tx_stmin = 0;
  tx_block_size = 0;
  tx_block_counter = 0;
  tx_wait_frame_count = 0;
  last_rx_tick = 0;
  last_tx_tick = 0;
}

unfoldable pub init : {E : Type 0} → World E → World E
unfolding init_ctx
init w = record w { ctx = init_ctx }

-- ISO_TP_RegisterStreamSink; the sink itself is the port `on_stream`.
unfoldable pub register_stream_sink : {E : Type 0} → Bool → World E → World E
register_stream_sink given w = record w { stream_sink = given }

abbrev pub put : {E : Type 0} → Context → World E → World E
put c w = record w { ctx = c }

module _ {E : Type 0} (ports : Ports E) where
  -- A call of HAL_FDCAN_AddMessageToTxFifoQ.
  abbrev pub transmit : CanFrame → World E → Bool × World E
  transmit f w =
      let (ok, e) = ports.add_message f w.env in (ok, record w { env = e; out = sent f ok ∷ w.out })

  -- A call of the stream sink.
  abbrev pub notify : StreamEvent → World E → World E
  notify ev w = record w { env = ports.on_stream ev w.env; out = notified ev ∷ w.out }

  -- A call of the stream sink, if one is registered.
  abbrev pub notify_sink : StreamEvent → World E → World E
  notify_sink ev w = if w.stream_sink then notify ev w else w

  -- `last_rx_tick = HAL_GetTick()`
  abbrev pub stamp_rx : World E → World E
  stamp_rx w =
      let (t, e) = ports.get_tick w.env in
      record w { ctx = record (w.ctx) { last_rx_tick = t }; env = e }

  -- `last_tx_tick = HAL_GetTick()`
  abbrev pub stamp_tx : World E → World E
  stamp_tx w =
      let (t, e) = ports.get_tick w.env in
      record w { ctx = record (w.ctx) { last_tx_tick = t }; env = e }
