-- ===== src/Obd2/Dtc/Report.antt =====
-- The queries on the trouble codes, Core/Src/obd2_simulator.c. A returned list stands for the
-- records written to the output buffer.
use obd_simulator.Prelude.{
  ℕ, zero, suc, ◌+◌, ◌*◌, ◌/◌, List, [], ◌∷◌, Bool, true, false, not, ◌&&◌, ltb, ◌==◌,
  if◌then◌else◌, u8, bit_and, Option, none, some,
}
use obd_simulator.Obd2.Dtc.{
  DtcState, dtc_inactive, dtc_pending, DtcEntry, MirrorEntry, debounce_thresh, is_confirmed,
  status_byte,
}

abbrev pub is_pending : DtcState → Bool
is_pending dtc_pending = true
is_pending _ = false

-- The loops of OBD2_DtcGetConfirmed and OBD2_DtcGetPending, for `left` more pairs: the codes that
-- are written, high byte first.
unfoldable pub get_codes : (DtcState → Bool) → ℕ → List DtcEntry → List ℕ
get_codes wanted left [] = []
get_codes wanted zero (d ∷ ds) = []
get_codes wanted (suc left) (d ∷ ds) =
    let written = u8 (d.code / 256) ∷ u8 d.code ∷ get_codes wanted left ds in
    let skipped = get_codes wanted (suc left) ds in if wanted d.state then written else skipped

unfoldable pub get_confirmed : ℕ → List DtcEntry → List ℕ
unfolding get_codes
get_confirmed = get_codes is_confirmed

unfoldable pub get_pending : ℕ → List DtcEntry → List ℕ
unfolding get_codes
get_pending = get_codes is_pending

-- OBD2_DtcFdc; the results are small and positive.
unfoldable pub fault_detection_counter : DtcEntry → ℕ
fault_detection_counter d = elim (d.state) [
  | dtc_inactive ↦ if ltb d.debounce debounce_thresh then d.debounce * 25 else 0
  | _ ↦ 127
]

-- A status byte against a mask; the availability mask is 0xFF.
abbrev pub matches_mask : ℕ → ℕ → Bool
matches_mask status mask = not (bit_and (bit_and status mask) 0xFF == 0)

unfoldable pub count_by_mask : ℕ → List DtcEntry → ℕ
unfolding status_byte
count_by_mask mask [] = 0
count_by_mask mask (d ∷ ds) =
    (if matches_mask (status_byte d) mask then 1 else 0) + count_by_mask mask ds

-- The loop of OBD2_DtcGetByMask, for `left` more records of four bytes.
unfoldable pub get_by_mask : ℕ → ℕ → List DtcEntry → List ℕ
unfolding status_byte
get_by_mask mask left [] = []
get_by_mask mask zero (d ∷ ds) = []
get_by_mask mask (suc left) (d ∷ ds) =
    let written = u8 (d.code / 256) ∷ u8 d.code ∷ 0x00 ∷ status_byte d ∷ get_by_mask mask left ds in
    let skipped = get_by_mask mask (suc left) ds in
    if matches_mask (status_byte d) mask then written else skipped

unfoldable pub find_by_code : ℕ → List DtcEntry → Option DtcEntry
find_by_code code [] = none
find_by_code code (d ∷ ds) = if d.code == code then some d else find_by_code code ds

-- The selectors of OBD2_DtcPick.
pub data Selector : Type 0 where
  first_failed recent_failed first_confirmed recent_confirmed : Selector

unfoldable pub is_candidate : Selector → DtcEntry → Bool
is_candidate first_failed d = not (d.fail_seq == 0)
is_candidate recent_failed d = not (d.fail_seq == 0)
is_candidate first_confirmed d = is_confirmed d.state && not (d.fail_seq == 0)
is_candidate recent_confirmed d = is_confirmed d.state && not (d.fail_seq == 0)

-- Does `d` replace the best entry so far?
unfoldable pub is_better : Selector → DtcEntry → DtcEntry → Bool
is_better first_failed d best = ltb d.fail_seq best.fail_seq
is_better first_confirmed d best = ltb d.fail_seq best.fail_seq
is_better recent_failed d best = ltb best.fail_seq d.fail_seq
is_better recent_confirmed d best = ltb best.fail_seq d.fail_seq

-- One round of the loop.
unfoldable pub choose : Selector → Option DtcEntry → DtcEntry → Option DtcEntry
unfolding is_candidate is_better
choose which none d = if is_candidate which d then some d else none
choose which (some best) d =
    if is_candidate which d && is_better which d best then some d else some best

unfoldable pub pick_from : Selector → Option DtcEntry → List DtcEntry → Option DtcEntry
unfolding choose
pick_from which best [] = best
pick_from which best (d ∷ ds) = pick_from which (choose which best d) ds

unfoldable pub dtc_pick : Selector → List DtcEntry → Option DtcEntry
unfolding pick_from
dtc_pick which table = pick_from which none table

unfoldable pub mirror_count_by_mask : ℕ → List MirrorEntry → ℕ
mirror_count_by_mask mask [] = 0
mirror_count_by_mask mask (e ∷ es) =
    (if not (e.code == 0) && matches_mask e.status mask then 1 else 0)
    + mirror_count_by_mask mask es

unfoldable pub mirror_get_by_mask : ℕ → ℕ → List MirrorEntry → List ℕ
mirror_get_by_mask mask left [] = []
mirror_get_by_mask mask zero (e ∷ es) = []
mirror_get_by_mask mask (suc left) (e ∷ es) =
    let written =
      u8 (e.code / 256) ∷ u8 e.code ∷ 0x00 ∷ e.status ∷ mirror_get_by_mask mask left es in
    let skipped = mirror_get_by_mask mask (suc left) es in
    if not (e.code == 0) && matches_mask e.status mask then written else skipped

unfoldable pub mirror_find_by_code : ℕ → List MirrorEntry → Option MirrorEntry
mirror_find_by_code code [] = none
mirror_find_by_code code (e ∷ es) = if e.code == code then some e else mirror_find_by_code code es
