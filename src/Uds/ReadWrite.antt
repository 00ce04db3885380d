-- ===== src/Uds/ReadWrite.antt =====
-- Reading and writing data: 0x22 ReadDataByIdentifier, 0x23 ReadMemoryByAddress, 0x2E
-- WriteDataByIdentifier and 0x2F InputOutputControlByIdentifier.
use obd_simulator.Prelude.{
  ℕ, ◌+◌, ◌-◌, ◌/◌, ◌%◌, List, [], ◌∷◌, not, ◌||◌, ltb, ◌==◌, if◌then◌else◌, length, take, drop,
  get_or, u8, be16, byte1, none, some, memcpy, set,
}
use obd_simulator.Boot.Server.Transfer.{be_word}
use obd_simulator.Uds.{
  App, build_negative_response, did_vin, did_io_control, dyn_max_data, max_response_size,
}
use obd_simulator.Uds.Sources.{did_read, dyn_find, dyn_assemble, read_mem, is_readable}

-- The two bytes of an identifier.
abbrev pub did_bytes : ℕ → List ℕ
did_bytes did = byte1 did ∷ u8 did ∷ []

-- The answer for a dynamic identifier.
unfoldable pub read_dynamic : (ℕ → ℕ) → ℕ → App → List ℕ
read_dynamic mem did a = elim (dyn_find did a.dyn) [
  | none ↦ build_negative_response 0x22 0x31
  | some slot ↦
      let buf = dyn_assemble mem a.vin a.io_port slot dyn_max_data in
      if length buf == 0 then build_negative_response 0x22 0x31 else 0x62 ∷ byte1 did ∷ u8 did ∷ buf
]

unfoldable pub handle_read_data_by_id : (ℕ → ℕ) → List ℕ → App → List ℕ
unfolding read_dynamic
handle_read_data_by_id mem req a =
    let did = be16 (get_or req 1 0) (get_or req 2 0) in
    if ltb (length req) 3 then build_negative_response 0x22 0x13 else elim (did_read a.vin did) [
      | some bytes ↦ 0x62 ∷ byte1 did ∷ u8 did ∷ bytes
      | none ↦ read_dynamic mem did a
    ]

unfoldable pub handle_read_mem_by_addr : (ℕ → ℕ) → List ℕ → List ℕ
unfolding is_readable
handle_read_mem_by_addr mem req =
    let alen = get_or req 1 0 % 16 in
    let slen = get_or req 1 0 / 16 % 16 in
    let addr = be_word 0 (take alen (drop 2 req)) in
    let size = be_word 0 (take slen (drop (2 + alen) req)) in
    if ltb (length req) 3
    then build_negative_response 0x23 0x13
    else if alen == 0 || slen == 0 || ltb 4 alen || ltb 4 slen
    then build_negative_response 0x23 0x31
    else if ltb (length req) (2 + alen + slen)
    then build_negative_response 0x23 0x13
    else if size == 0 || ltb (max_response_size - 1) size
    then build_negative_response 0x23 0x31
    else if not (is_readable addr size)
    then build_negative_response 0x23 0x31
    else 0x63 ∷ read_mem mem addr size

-- `memcpy(s_vin, &req[3], 17); s_vin[17] = 0;`
unfoldable pub write_vin : List ℕ → List ℕ → List ℕ
write_vin vin req = set (memcpy vin 0 (take 17 (drop 3 req))) 17 0

unfoldable pub handle_write_data_by_id : List ℕ → App → List ℕ × App
unfolding write_vin
handle_write_data_by_id req a =
    let did = be16 (get_or req 1 0) (get_or req 2 0) in
    if ltb (length req) 4
    then (build_negative_response 0x2E 0x13, a)
    else if not (did == did_vin)
    then (build_negative_response 0x2E 0x31, a)
    else if not (length req - 3 == 17)
    then (build_negative_response 0x2E 0x13, a)
    else (0x6E ∷ byte1 did ∷ u8 did ∷ [], record a { vin = write_vin a.vin req })

unfoldable pub handle_input_output_control : List ℕ → App → List ℕ × App
handle_input_output_control req a =
    let did = be16 (get_or req 1 0) (get_or req 2 0) in
    let control = get_or req 3 0 in
    let adjusted = record a { io_port = get_or req 4 0 } in
    let answer = λ (port : ℕ). 0x6F ∷ byte1 did ∷ u8 did ∷ control ∷ port ∷ [] in
    if ltb (length req) 4
    then (build_negative_response 0x2F 0x13, a)
    else if not (did == did_io_control)
    then (build_negative_response 0x2F 0x31, a)
    else if control == 0x00
    then (answer a.io_port, a)
    else if not (control == 0x03)
    then (build_negative_response 0x2F 0x12, a)
    else if ltb (length req) 5
    then (build_negative_response 0x2F 0x13, a)
    else (answer (get_or req 4 0), adjusted)
