-- ===== src/IsoTp/RoundTrip/Transfer.antt =====
-- A whole transfer between two nodes: first frame, flow control, consecutive frames.
use obd_simulator.Prelude.{
  ℕ, suc, ◌+◌, ◌*◌, ◌≤◌, ◌<◌, ◌≡◌, List, [], ◌∷◌, length, take, arith, low_nibble, high_nibble, ◌∙◌,
  ap, get_or, memcpy, refl, u32, sym,
}
use obd_simulator.Can.{addr_physical, classify}
use obd_simulator.Can.Frames.{CanFrame, dlc_to_bytes}
use obd_simulator.IsoTp.Context.{Ports, World, sent, put, tx_idle, max_message_size}
use obd_simulator.IsoTp.Transmit.{
  first_frame, send_response, send_next_cf, process_flow_control, blank,
}
use obd_simulator.IsoTp.Receive.{
  Dispatch, dispatch_completed_message, process_frame, process_addressed, process_first_frame,
}
use obd_simulator.IsoTp.Invariant.{IsValid}
use obd_simulator.IsoTp.RoundTrip.Multi.{Reassembling, first_frame-Opens}
use obd_simulator.IsoTp.RoundTrip.Opening.{process_first_frame-Reassembling, process_first_frame-fc}
use obd_simulator.IsoTp.RoundTrip.Sender.{
  Accepts, send_response-Opened, process_flow_control-Sending, Opened,
}
use obd_simulator.IsoTp.RoundTrip.Exchange.{
  deliver, deliver-sent, exchange, exchange-Linked, Linked,
}

-- The payload of the frame that a node sent last.
abbrev pub last_payload : {E : Type 0} → World E → List ℕ
last_payload w = elim (w.out) [ sent f ok ∷ older ↦ f.payload | _ ↦ [] ]

-- A transfer of `msg` with `k` + 1 consecutive frames: the sender's first frame goes to the
-- receiver, the receiver's flow control back, and then one consecutive frame after the other.
unfoldable pub transfer :
    {S E : Type 0}
    → Ports S
    → Ports E
    → Dispatch E
    → ℕ
    → ℕ
    → ℕ
    → List ℕ
    → World S
    → World E
    → World E
unfolding deliver exchange
transfer sports ports dispatch id resp_id k msg s r =
    let opened = send_response sports resp_id msg s in
    let accepted = deliver ports dispatch id opened r in
    let going = process_flow_control sports (last_payload accepted) opened in
    (exchange sports ports dispatch id k going (deliver ports dispatch id going accepted)).1

-- The flow control frame that the receiver of a first frame sends.
abbrev proceed : ℕ → CanFrame
proceed id = record {
  identifier = u32 (id + 8);
  data_length = 10;
  payload = memcpy blank 0 (0x30 ∷ 0 ∷ 5 ∷ []);
}

module _ {S E : Type 0} (sports : Ports S) (accepts : Accepts sports) (ports : Ports E)
    (dispatch : Dispatch E) where
  -- A first frame on a full wire, addressed to this node alone.
  receive_ff :
      (id : ℕ) (frame : List ℕ) (r : World E)
      → classify id ≡ addr_physical
      → high_nibble (get_or frame 0 0) ≡ 0x10
      → process_frame ports dispatch id frame 64 r
        ≡ process_first_frame ports id frame 64
            (put (record (r.ctx) { rx_addr_type = addr_physical }) r)
  unfolding process_frame process_addressed
  receive_ff id frame r a e = ground arith

  -- The receiver of the first frame is linked to the sender of which its flow control is heard.
  open_link :
      (id : ℕ) (msg : List ℕ) (o : World S) (accepted : World E)
      → Opened msg (o.ctx)
      → 63 ≤ length msg
      → length msg ≤ max_message_size
      → Reassembling msg (accepted.ctx)
      → accepted.ctx.rx_received ≡ 62
      → accepted.ctx.rx_expected_seq ≡ 1
      → last_payload accepted ≡ (proceed id).payload
      → (u : World S) × (process_flow_control sports (last_payload accepted) o
          ≡ send_next_cf sports u)
        × Linked msg u accepted
        × (u.ctx.tx_sent ≡ 62)
  open_link id msg o accepted p lo hi v at sq e =
      let heard =
        process_flow_control-Sending sports accepts msg (last_payload accepted) o p lo hi
          (ap (λ f. low_nibble (get_or f 0 0)) e) (ap (λ f. get_or f 1 0) e) in
      (
        heard.0,
        heard.1,
        record {
          sending = heard.2;
          receiving = v;
          in_step = heard.3 ∙ sym at;
          in_sequence = sq ∙ sym (ap low_nibble (heard.4));
        },
        heard.3,
      )

  -- A message of 63 to 512 bytes that an idle node sends, through a driver that takes its frames, is
  -- received whole by any other node (whatever it was receiving or sending) that the receive
  -- identifier addresses physically, when the receiver's flow control reaches the sender: with as
  -- many consecutive frames as the length asks for, the transfer ends in one call of the receiver's
  -- service layer, whose request is the message. Both contexts satisfy the invariant before.
  pub transfer_lem :
      (id resp_id k : ℕ) (msg : List ℕ) (s : World S) (r : World E)
      → classify id ≡ addr_physical
      → IsValid (s.ctx)
      → IsValid (r.ctx)
      → s.ctx.tx_state ≡ tx_idle
      → 63 ≤ length msg
      → length msg ≤ max_message_size
      → 62 + 63 * k < length msg
      → length msg ≤ 62 + 63 * (k + 1)
      → (u : World E) × (transfer sports ports dispatch id resp_id k msg s r
          ≡ dispatch_completed_message ports dispatch u)
        × (take (u.ctx.rx_total_size) (u.ctx.rx_buffer) ≡ msg)
        × (u.ctx.rx_addr_type ≡ addr_physical)
  unfolding transfer exchange dlc_to_bytes
  transfer_lem id resp_id k msg s r physical vs vr idle lo hi short long =
      let o = send_response-Opened sports accepts resp_id msg s vs idle lo hi in
      let opened = send_response sports resp_id msg s in
      let heard = put (record (r.ctx) { rx_addr_type = addr_physical }) r in
      let opens = first_frame-Opens msg lo hi in
      let accepted = deliver ports dispatch id opened r in
      let taken : accepted ≡ process_first_frame ports id ((first_frame msg).0) 64 heard =
        deliver-sent ports dispatch id opened r (o.0)
        ∙ receive_ff id ((first_frame msg).0) r physical (opens.2) in
      let valid : IsValid (heard.ctx) = ground (arith, vr) in
      let held =
        process_first_frame-Reassembling ports id msg ((first_frame msg).0) ((first_frame msg).1)
          heard valid refl lo hi opens in
      let fc =
        process_first_frame-fc ports id msg ((first_frame msg).0) ((first_frame msg).1) heard valid
          refl lo hi opens in
      let link =
        open_link id msg opened accepted (o.1) lo hi (rw taken (held.0)) (rw taken (held.1))
          (rw taken (held.2)) (rw (taken, fc.2) refl) in
      let rest =
        exchange-Linked sports accepts ports dispatch id physical msg (suc k) (link.0) accepted
          (link.2) (omega (arith, link.3)) (omega (arith, link.3)) (omega (arith, link.3)) in
      (
        rest.0,
        ap (λ g. (exchange sports ports dispatch id k g (deliver ports dispatch id g accepted)).1)
              (link.1)
            ∙ rest.1,
        rest.2,
        rest.3,
      )
