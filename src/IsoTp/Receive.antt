-- ===== src/IsoTp/Receive.antt =====
-- The receiving half of Core/Src/iso_tp.c: reassembly, streaming and dispatch.
use obd_simulator.Prelude.{
  ℕ, ◌+◌, ◌-◌, min, List, Bool, true, false, ◌&&◌, ltb, leb, ◌==◌, if◌then◌else◌, length, take,
  drop, get_or, memcpy, u8, u32, sub32, low_nibble, high_nibble, be16, be32,
}
use obd_simulator.Can.{
  AddrType, addr_ignore, addr_physical, addr_functional, classify, can_id_physical_resp,
}
use obd_simulator.IsoTp.Context.{
  Context, RxState, rx_idle, rx_wait_cf, rx_complete, Ports, World, put, notify, notify_sink,
  stamp_rx, stream_begin, stream_data, stream_end, stream_error, max_message_size, frame_size,
  fc_block_size, fc_stmin,
}
use obd_simulator.IsoTp.Transmit.{send_response, send_flow_control, process_flow_control}

-- `&data[off]`, `n` bytes of it
abbrev pub slice : List ℕ → ℕ → ℕ → List ℕ
slice frame off n = take n (drop off frame)

-- UDS_DispatchRequest: the request, how it was addressed, and the response (empty for none). It
-- may itself send through the layer, so it maps worlds.
abbrev pub Dispatch : Type 0 → Type 0
Dispatch E = List ℕ → AddrType → World E → List ℕ × World E

-- The payload of a single frame: offset and length.
unfoldable pub single_payload : List ℕ → ℕ → ℕ × ℕ
single_payload frame dlc =
    if ltb 1 dlc && low_nibble (get_or frame 0 0) == 0
    then (2, min (get_or frame 1 0) (dlc - 2))
    else (1, min (low_nibble (get_or frame 0 0)) (dlc - 1))

abbrev pub len12 : List ℕ → ℕ
len12 frame = be16 (low_nibble (get_or frame 0 0)) (get_or frame 1 0)

-- Total size and payload offset of a first frame; for the escape form, whether it is long enough
-- is `escape_too_short`.
unfoldable pub first_header : List ℕ → ℕ × ℕ
first_header frame =
    if len12 frame == 0
    then (be32 (get_or frame 2 0) (get_or frame 3 0) (get_or frame 4 0) (get_or frame 5 0), 6)
    else (len12 frame, 2)

abbrev pub escape_too_short : List ℕ → ℕ → Bool
escape_too_short frame dlc = len12 frame == 0 && ltb dlc 6

-- `ff_payload`
abbrev pub first_payload : ℕ → ℕ → ℕ → ℕ
first_payload dlc off total = min (min (dlc - off) (frame_size - off)) total

-- The receive fields that both paths of `process_first_frame` set.
unfoldable pub start_reception : ℕ → ℕ → ℕ → Bool → Context → Context
start_reception can_id total received streaming c = record c {
  rx_total_size = total;
  rx_received = received;
  rx_expected_seq = 1;
  rx_can_id = can_id;
  stream_mode = streaming;
}

-- `resp_id` of `dispatch_completed_message`
unfoldable pub response_id : Context → ℕ
response_id c = elim (c.rx_addr_type) [
  | addr_functional ↦ can_id_physical_resp
  | _ ↦ u32 (c.rx_can_id + 8)
]

abbrev pub set_rx_state : {E : Type 0} → RxState → World E → World E
set_rx_state s w = put (record (w.ctx) { rx_state = s }) w

module _ {E : Type 0} (ports : Ports E) where
  unfoldable pub abort_stream_rx : World E → World E
  abort_stream_rx w =
      let w' =
        if w.ctx.stream_mode then notify_sink ports (stream_error (w.ctx.rx_total_size)) w else w in
      put (record (w'.ctx) { stream_mode = false }) w'

  -- A frame that starts a reception ends one in progress.
  unfoldable pub restart_rx : World E → World E
  unfolding abort_stream_rx
  restart_rx w = elim (w.ctx.rx_state) [ rx_wait_cf ↦ abort_stream_rx w | _ ↦ w ]

  -- `process_single_frame` up to its call of `dispatch_completed_message`.
  unfoldable pub receive_single : ℕ → List ℕ → ℕ → World E → World E
  receive_single can_id frame dlc w =
      let restarted = restart_rx w in
      let (off, n) = single_payload frame dlc in
      let c = restarted.ctx in
      put
        (record c {
          rx_buffer = memcpy c.rx_buffer 0 (slice frame off n);
          rx_total_size = n;
          rx_can_id = can_id;
          rx_state = rx_complete;
        })
        restarted

  -- The stream path of `process_first_frame`, from the sink that is registered.
  unfoldable pub first_stream : ℕ → List ℕ → ℕ → ℕ → ℕ → World E → World E
  unfolding start_reception
  first_stream can_id frame total off n w =
      let started =
        set_rx_state rx_wait_cf
          (stamp_rx ports (put (start_reception can_id total 0 true (w.ctx)) w)) in
      let begun = notify ports (stream_begin total) started in
      let got = notify ports (stream_data (slice frame off n) total) begun in
      let fed = if ltb 0 n then put (record (got.ctx) { rx_received = n }) got else begun in
      send_flow_control ports (u32 (can_id + 8)) 0 fc_block_size fc_stmin fed

  -- The buffer path of `process_first_frame`.
  unfoldable pub first_buffer : ℕ → List ℕ → ℕ → ℕ → ℕ → World E → World E
  unfolding start_reception
  first_buffer can_id frame total off n w =
      let c = record (w.ctx) { rx_buffer = memcpy (w.ctx.rx_buffer) 0 (slice frame off n) } in
      let started = stamp_rx ports (put (start_reception can_id total n false c) w) in
      send_flow_control ports (u32 (can_id + 8)) 0 fc_block_size fc_stmin
        (set_rx_state rx_wait_cf started)

  -- `process_first_frame` behind its address check and the end of the reception in progress.
  unfoldable pub accept_first_frame : ℕ → List ℕ → ℕ → World E → World E
  accept_first_frame can_id frame dlc w =
      let (total, off) = first_header frame in
      let n = first_payload dlc off total in
      if escape_too_short frame dlc
      then set_rx_state rx_idle w
      else if ltb max_message_size total
      then (if w.stream_sink
          then first_stream can_id frame total off n w
          else set_rx_state rx_idle (send_flow_control ports (u32 (can_id + 8)) 2 0 0 w))
      else first_buffer can_id frame total off n w

  unfoldable pub process_first_frame : ℕ → List ℕ → ℕ → World E → World E
  process_first_frame can_id frame dlc w = elim (w.ctx.rx_addr_type) [
    | addr_functional ↦ w
    | _ ↦ accept_first_frame can_id frame dlc (restart_rx w)
  ]

  -- The data of a consecutive frame, to the sink or into the buffer.
  unfoldable pub store_chunk : List ℕ → World E → World E
  store_chunk chunk w =
      let c = w.ctx in
      if c.stream_mode
      then notify_sink ports (stream_data chunk c.rx_total_size) w
      else put (record c { rx_buffer = memcpy c.rx_buffer c.rx_received chunk }) w

  -- A consecutive frame in sequence, up to the test for the end of the message.
  unfoldable pub take_chunk : List ℕ → ℕ → World E → World E
  unfolding store_chunk
  take_chunk frame dlc w =
      let n = min (u8 (dlc - 1)) (sub32 (w.ctx.rx_total_size) (w.ctx.rx_received)) in
      let stored = store_chunk (slice frame 1 n) w in
      stamp_rx ports (
        put
          (record (stored.ctx) {
            rx_received = u32 (w.ctx.rx_received + n);
            rx_expected_seq = low_nibble (w.ctx.rx_expected_seq + 1);
          })
          stored)

  module _ (dispatch : Dispatch E) where
    unfoldable pub dispatch_completed_message : World E → World E
    dispatch_completed_message w =
        let c = w.ctx in
        let (response, w') = dispatch (take c.rx_total_size c.rx_buffer) c.rx_addr_type w in
        let ended = set_rx_state rx_idle w' in
        if ltb 0 (length response)
        then send_response ports (response_id (ended.ctx)) response ended
        else ended

    unfoldable pub process_single_frame : ℕ → List ℕ → ℕ → World E → World E
    unfolding receive_single
    process_single_frame can_id frame dlc w =
        dispatch_completed_message (receive_single can_id frame dlc w)

    -- The end of `process_consecutive_frame`: is the message complete?
    unfoldable pub finish_reception : World E → World E
    finish_reception w =
        let c = w.ctx in
        if leb c.rx_total_size c.rx_received
        then (if c.stream_mode
            then (let ended = notify_sink ports (stream_end c.rx_total_size) w in
                put (record (ended.ctx) { stream_mode = false; rx_state = rx_idle }) ended)
            else dispatch_completed_message (set_rx_state rx_complete w))
        else w

    unfoldable pub process_consecutive_frame : List ℕ → ℕ → World E → World E
    process_consecutive_frame frame dlc w = elim (w.ctx.rx_state) [
      | rx_wait_cf ↦
          if low_nibble (get_or frame 0 0) == w.ctx.rx_expected_seq
          then finish_reception (take_chunk frame dlc w)
          else set_rx_state rx_idle (abort_stream_rx w)
      | _ ↦ w
    ]

    -- The switch of `ISO_TP_ProcessFrame` on the PCI type, for a frame addressed to this node.
    unfoldable pub process_addressed : ℕ → List ℕ → ℕ → World E → World E
    process_addressed can_id frame dlc w =
        let pci = high_nibble (get_or frame 0 0) in
        if pci == 0x00
        then process_single_frame can_id frame dlc w
        else if pci == 0x10
        then process_first_frame can_id frame dlc w
        else if pci == 0x20
        then process_consecutive_frame frame dlc w
        else w

    unfoldable pub process_frame : ℕ → List ℕ → ℕ → World E → World E
    process_frame can_id frame dlc w =
        let addressed = λ (addr : AddrType).
          process_addressed can_id frame dlc (put (record (w.ctx) { rx_addr_type = addr }) w) in
        if dlc == 0
        then w
        else if high_nibble (get_or frame 0 0) == 0x30
        then process_flow_control ports frame w
        else elim (classify can_id) [
          | addr_ignore ↦ w
          | addr_physical ↦ addressed addr_physical
          | addr_functional ↦ addressed addr_functional
        ]
