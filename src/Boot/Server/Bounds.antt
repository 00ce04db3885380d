-- ===== src/Boot/Server/Bounds.antt =====
-- The sizes of a transfer stay in bounds over every request and every round of the main loop.
use obd_simulator.Prelude.{ℕ, ◌+◌, ◌<◌, List, length, get_or, arith}
use obd_simulator.Can.{AddrType}
use obd_simulator.Flash.{FlashPorts}
use obd_simulator.Session.{reset_s3_timeout}
use obd_simulator.Boot.Server.{Server, reset_transfer}
use obd_simulator.Boot.Server.Dispatch.{serve_request, dispatch_request, main_round}
use obd_simulator.Boot.Server.Integrity.{IsTransfer, handlers-IsTransfer}
use obd_simulator.Boot.Server.Policy.{KeepsImage, handlers-KeepsImage}

module _ {F : Type 0} (flash : FlashPorts F) where
  kept-IsTransfer : (s s' : Server F) → KeepsImage s s' → IsTransfer s → IsTransfer s'
  kept-IsTransfer s s' k v = ground (arith, k, v)

  serve_request-IsTransfer :
      (tick : ℕ → ℕ) (req : List ℕ) (s : Server F)
      → length req < 65536
      → IsTransfer s
      → IsTransfer (serve_request flash tick req s).1
  unfolding serve_request
  serve_request-IsTransfer tick req s n v =
      let sid = get_or req 0 0 in
      let k = handlers-KeepsImage flash tick sid req s in
      let t = handlers-IsTransfer flash req s n v in
      ground (
        arith,
        t,
        kept-IsTransfer s _ (k.0) v,
        kept-IsTransfer s _ (k.1) v,
        kept-IsTransfer s _ (k.2) v,
        kept-IsTransfer s _ (k.3) v,
        kept-IsTransfer s _ (k.4) v,
      )

  -- The announced size of a transfer fits the app slot, and its written part fits that size: every
  -- request of fewer than 65,536 bytes keeps this, and so does every round of the main loop.
  pub server-IsTransfer :
      (tick : ℕ → ℕ) (req : List ℕ) (addr : AddrType) (now prev_session : ℕ) (s : Server F)
      → length req < 65536
      → IsTransfer s
      → IsTransfer (dispatch_request flash tick req addr s).1
        × IsTransfer (main_round flash tick now prev_session s).1
  unfolding dispatch_request main_round reset_transfer reset_s3_timeout
  server-IsTransfer tick req addr now prev_session s n v =
      let active = record s { session = reset_s3_timeout tick (s.session) } in
      (
        ground (
          arith,
          serve_request-IsTransfer (λ i. tick (i + 1)) req active n (ground (arith, v)),
          v,
        ),
        ground (arith, v),
      )
