-- ===== src/Uds/Obd.antt =====
-- The OBD-II modes 01, 03, 04, 07 and 09.
use obd_simulator.Prelude.{
  ℕ, ◌/◌, List, [], ◌∷◌, ltb, ◌==◌, if◌then◌else◌, length, take, drop, get_or, u8,
}
use obd_simulator.Obd2.{handle_service01}
use obd_simulator.Obd2.Dtc.{dtc_clear}
use obd_simulator.Obd2.Dtc.Report.{get_confirmed, get_pending}
use obd_simulator.Uds.{App, build_negative_response}
use obd_simulator.Uds.Sources.{c_string}

-- `OBD2_DTC_COUNT`
abbrev pub dtc_count : ℕ
dtc_count = 3

unfoldable pub handle_obd2_service01 : List ℕ → App → List ℕ
handle_obd2_service01 req a =
    let (obd_resp, obd_len) = handle_service01 (get_or req 1 0) a.sim in
    if ltb (length req) 2
    then build_negative_response 0x01 0x13
    else if obd_len == 0
    then []
    else take obd_len (drop 1 obd_resp)

unfoldable pub handle_obd2_service03 : App → List ℕ
handle_obd2_service03 a =
    let dtc_buf = get_confirmed dtc_count a.dtc.table in 0x43 ∷ u8 (length dtc_buf / 2) ∷ dtc_buf

unfoldable pub handle_obd2_service04 : App → List ℕ × App
handle_obd2_service04 a = (0x44 ∷ [], record a { dtc = dtc_clear a.dtc })

unfoldable pub handle_obd2_service07 : App → List ℕ
handle_obd2_service07 a = 0x47 ∷ get_pending dtc_count a.dtc.table

unfoldable pub handle_obd2_service09 : List ℕ → App → List ℕ
handle_obd2_service09 req a =
    if ltb (length req) 2
    then []
    else if get_or req 1 0 == 0x00
    then 0x49 ∷ 0x00 ∷ 0x02 ∷ 0x00 ∷ 0x00 ∷ 0x00 ∷ []
    else if get_or req 1 0 == 0x02
    then 0x49 ∷ 0x02 ∷ 0x01 ∷ c_string a.vin
    else []
