-- ===== src/Boot/Node/Rollback.antt =====
-- The rollback counter over runs of the whole bootloader.
use obd_simulator.Prelude.{◌≡◌, ◌≤◌, List, [], ◌∷◌, true, false, subst, sym, arith, get_or-AreBytes}
use obd_simulator.Flash.{FlashPorts}
use obd_simulator.Boot.{Meta, bl_meta_write, bl_meta_rollback_counter}
use obd_simulator.IsoTp.Context.{Ports, World}
use obd_simulator.Boot.Server.Integrity.{IsTransfer}
use obd_simulator.Boot.Server.Keys.{Event, request, round}
use obd_simulator.Boot.Server.MetaPage.{DriverLaws}
use obd_simulator.Boot.Server.Rollback.{AreRequests, run-rollback}
use obd_simulator.Boot.Node.{Node}
use obd_simulator.Boot.Node.Run.{IsNode, AreHeard}
use obd_simulator.Boot.Node.Locked.{
  Input, AreReads, run_inputs, run_inputs-Explained, Explains-AreHeard,
}

AreHeard-AreRequests : (es : List Event) → AreHeard es → AreRequests es
AreHeard-AreRequests [] h = tt
AreHeard-AreRequests (request readings req addr ∷ es) h =
    ((λ i. get_or-AreBytes req i h.0), omega (arith, h.1), AreHeard-AreRequests es h.3)
AreHeard-AreRequests (round readings now prev_session ∷ es) h = AreHeard-AreRequests es h

-- Over a flash driver that obeys its laws and whose rewrites of the meta page succeed, whatever CAN
-- frames of bytes come, on whatever identifiers and of whatever lengths, unlocked or not, and however
-- many rounds of the main loop go by between them, from a bootloader without an open transfer whose
-- sizes are in bounds: the rollback counter that the meta page shows does not go down.
pub run_inputs-rollback :
    {F D : Type 0} (flash : FlashPorts F) (driver : DriverLaws flash)
    (rewrites : (m : Meta) (f : F) → (bl_meta_write flash m f).0 ≡ true) (ports : Ports D)
    (ins : List Input) (w : World (Node F D))
    → AreReads ins
    → IsNode w
    → IsTransfer (w.env.server)
    → w.env.server.xfer_active ≡ false
    → bl_meta_rollback_counter flash (w.env.server.flash)
      ≤ bl_meta_rollback_counter flash (run_inputs flash ports ins w).env.server.flash
run_inputs-rollback flash driver rewrites ports ins w b v t closed =
    let heard = run_inputs-Explained flash ports ins w b v in
    let requests = AreHeard-AreRequests heard.events (Explains-AreHeard heard.explains) in
    subst
      (λ s.
        bl_meta_rollback_counter flash (w.env.server.flash)
        ≤ bl_meta_rollback_counter flash s.flash)
      (sym heard.same)
      (run-rollback flash driver rewrites heard.events (w.env.server) requests t closed)
