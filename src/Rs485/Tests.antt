-- ===== src/Rs485/Tests.antt =====
-- Runs of the RS-485 link, and its theorems at concrete inputs.
use obd_simulator.Prelude.{ℕ, ◌≡◌, List, [], ◌∷◌, some, replicate, memcpy, length, refl, arith}
use obd_simulator.Can.Frames.{bytes_to_dlc}
use obd_simulator.Rs485.{Message, Receiver, forward_can_message, receive_bytes, route_to_can}
use obd_simulator.Rs485.Routing.{forward-route}
use obd_simulator.Rs485.Noise.{AllWhole, IsReceiver, receive_bytes-IsReceiver}

idle : Receiver
idle = record { rx_buf = replicate 67 0; rx_len = 0 }

abbrev forwarded : List ℕ
forwarded = forward_can_message 0x7E0 (0x02 ∷ 0x10 ∷ 0x03 ∷ []) 3

forward-route_example :
    (m : Message) × ((receive_bytes forwarded idle).0 ≡ m ∷ [])
    × (route_to_can m
        ≡ some (record {
          identifier = 0x7E0;
          data_length = bytes_to_dlc 3;
          payload = memcpy (replicate 64 0xCC) 0 (0x02 ∷ 0x10 ∷ 0x03 ∷ []);
        }))
    × ((receive_bytes forwarded idle).1.rx_len ≡ 0)
    × (length (receive_bytes forwarded idle).1.rx_buf ≡ 67)
unfolding idle
forward-route_example =
    forward-route 0x7E0 (0x02 ∷ 0x10 ∷ 0x03 ∷ []) idle (omega arith) (omega arith) refl refl

-- A header with a length that no frame has is dropped, and the frame behind it is received.
receive_bytes_resync :
    (receive_bytes (0xFF ∷ 0xFF ∷ 0xFF ∷ 0x07 ∷ 0xE0 ∷ 0x01 ∷ 0x3E ∷ []) idle).0
    ≡ record { items = 0x07 ∷ 0xE0 ∷ 0x01 ∷ 0x3E ∷ []; len = 4 } ∷ []
unfolding idle receive_bytes
receive_bytes_resync = refl

receive_bytes-IsReceiver_example :
    AllWhole (receive_bytes (0xFF ∷ 0x00 ∷ 0x41 ∷ 0x07 ∷ []) idle).0
    × IsReceiver (receive_bytes (0xFF ∷ 0x00 ∷ 0x41 ∷ 0x07 ∷ []) idle).1
unfolding idle
receive_bytes-IsReceiver_example =
    receive_bytes-IsReceiver (0xFF ∷ 0x00 ∷ 0x41 ∷ 0x07 ∷ []) idle
      (record { buf_size = refl; not_full = omega arith })
