-- ===== src/Uds/Vin.antt =====
-- Writing the vehicle identification number and reading it back.
use obd_simulator.Prelude.{
  ℕ, zero, suc, ◌+◌, ◌≡◌, ◌≢◌, List, [], ◌∷◌, length, set, overlay, take-all, arith, refl, ap, ◌∙◌,
}
use obd_simulator.Can.{addr_physical}
use obd_simulator.Session.{session_extended, sec_locked, reset_s3_timeout}
use obd_simulator.Session.Access.{secured_locked}
use obd_simulator.Uds.{App}
use obd_simulator.Uds.Sources.{c_string, did_read}
use obd_simulator.Uds.ReadWrite.{write_vin, handle_write_data_by_id, handle_read_data_by_id}
use obd_simulator.Uds.Obd.{handle_obd2_service09}
use obd_simulator.Uds.Dispatch.{
  is_ignored, access_gate, serve_restricted, serve_open, serve_request, suppress, is_suppressible,
  dispatch_request,
}

-- The array after the write holds the new text, up to the NUL that ends it.
c_string-write :
    (n : ℕ) (vin bytes : List ℕ)
    → length vin ≡ suc n
    → length bytes ≡ n
    → c_string (set (overlay vin bytes) n 0) ≡ c_string bytes
unfolding c_string
c_string-write n [] bytes h e = absurd (omega arith)
c_string-write zero (x ∷ xs) [] h e = refl
c_string-write zero (x ∷ xs) (y ∷ ys) h e = absurd (omega arith)
c_string-write (suc n) (x ∷ xs) [] h e = absurd (omega arith)
c_string-write (suc n) (x ∷ xs) (y ∷ ys) h e =
    ground (arith, c_string-write n xs ys (omega arith) (omega arith))

write_vin_lem :
    (vin text : List ℕ)
    → length vin ≡ 18
    → length text ≡ 17
    → c_string (write_vin vin (0x2E ∷ 0xF1 ∷ 0x90 ∷ text)) ≡ c_string text
unfolding write_vin
write_vin_lem vin text h e =
    ap (λ t. c_string (set (overlay vin t) 17 0)) (take-all 17 text (omega arith))
    ∙ c_string-write 17 vin text h e

-- The three requests.
abbrev pub write_vin_request : List ℕ → List ℕ
write_vin_request text = 0x2E ∷ 0xF1 ∷ 0x90 ∷ text

abbrev pub read_vin_request : List ℕ
read_vin_request = 0x22 ∷ 0xF1 ∷ 0x90 ∷ []

abbrev pub vehicle_info_request : List ℕ
vehicle_info_request = 0x09 ∷ 0x02 ∷ []

serve_write :
    (mem tick : ℕ → ℕ) (text : List ℕ) (a : App)
    → a.session.session_type ≡ session_extended
    → a.session.security_level ≢ sec_locked
    → length text ≡ 17
    → serve_request mem tick (write_vin_request text) a
      ≡ (0x6E ∷ 0xF1 ∷ 0x90 ∷ [], record a { vin = write_vin a.vin (write_vin_request text) })
unfolding serve_request access_gate serve_restricted handle_write_data_by_id
serve_write mem tick text a e u n = ground (arith, secured_locked 0x2E a.session)

dispatch_request-write :
    (mem tick : ℕ → ℕ) (text : List ℕ) (a : App)
    → a.session.session_type ≡ session_extended
    → a.session.security_level ≢ sec_locked
    → length text ≡ 17
    → ((dispatch_request mem tick (write_vin_request text) addr_physical a).0
        ≡ 0x6E ∷ 0xF1 ∷ 0x90 ∷ [])
      × ((dispatch_request mem tick (write_vin_request text) addr_physical a).1.vin
          ≡ write_vin a.vin (write_vin_request text))
unfolding dispatch_request is_ignored suppress is_suppressible reset_s3_timeout
dispatch_request-write mem tick text a e u n =
    let active = record a { session = reset_s3_timeout tick a.session } in
    ground (arith, serve_write mem (λ i. tick (i + 1)) text active e u n)

dispatch_request-read :
    (mem tick : ℕ → ℕ) (a : App)
    → ((dispatch_request mem tick read_vin_request addr_physical a).0
        ≡ 0x62 ∷ 0xF1 ∷ 0x90 ∷ c_string a.vin)
      × ((dispatch_request mem tick vehicle_info_request addr_physical a).0
          ≡ 0x49 ∷ 0x02 ∷ 0x01 ∷ c_string a.vin)
unfolding dispatch_request is_ignored suppress is_suppressible serve_request serve_open
    handle_read_data_by_id did_read handle_obd2_service09
dispatch_request-read mem tick a = (ground arith, ground arith)

-- In the extended session with security unlocked, a write of a VIN of 17 bytes is confirmed, and
-- then ReadDataByIdentifier and Mode 09 answer with the bytes written, up to the first that is 0.
pub vin_write-read :
    (mem tick tick' : ℕ → ℕ) (text : List ℕ) (a : App)
    → a.session.session_type ≡ session_extended
    → a.session.security_level ≢ sec_locked
    → length a.vin ≡ 18
    → length text ≡ 17
    → ((dispatch_request mem tick (write_vin_request text) addr_physical a).0
        ≡ 0x6E ∷ 0xF1 ∷ 0x90 ∷ [])
      × ((dispatch_request mem tick' read_vin_request addr_physical
            (dispatch_request mem tick (write_vin_request text) addr_physical a).1).0
          ≡ 0x62 ∷ 0xF1 ∷ 0x90 ∷ c_string text)
      × ((dispatch_request mem tick' vehicle_info_request addr_physical
            (dispatch_request mem tick (write_vin_request text) addr_physical a).1).0
          ≡ 0x49 ∷ 0x02 ∷ 0x01 ∷ c_string text)
vin_write-read mem tick tick' text a e u n h =
    let after : App = (dispatch_request mem tick (write_vin_request text) addr_physical a).1 in
    let (answer, stored) = dispatch_request-write mem tick text a e u h in
    let text' : c_string after.vin ≡ c_string text =
      ap c_string stored ∙ write_vin_lem a.vin text n h in
    let (r, s) = dispatch_request-read mem tick' after in
    (answer, r ∙ ap (λ t. 0x62 ∷ 0xF1 ∷ 0x90 ∷ t) text', s ∙ ap (λ t. 0x49 ∷ 0x02 ∷ 0x01 ∷ t) text')
