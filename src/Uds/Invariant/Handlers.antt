-- ===== src/Uds/Invariant/Handlers.antt =====
-- The invariant of the application's state under its handlers, but for the dynamic identifiers.
use obd_simulator.Prelude.{
  ℕ, ◌%◌, List, take, drop, get_or, memcpy, length-set, length-memcpy, arith, get_or-set,
}
use obd_simulator.Obd2.Dtc.{dtc_setting_control}
use obd_simulator.Session.{set_session}
use obd_simulator.Uds.{App}
use obd_simulator.Uds.Shape.{
  IsApp, dtc_clear-SameSizes, inject_demo-SameSizes, length-periodic_stop_all, length-stop_each,
  length-subscribe_each,
}
use obd_simulator.Uds.Subscriptions.{
  periodic_stop_all-Distinct, stop_each-Distinct, subscribe_each-Distinct,
}
use obd_simulator.Uds.Control.{
  enter_session, hand_over, handle_session_control, handle_ecu_reset, handle_clear_dtc,
  request_seed, send_key, handle_security_access, start_routine, handle_routine_control,
  handle_communication_control, handle_control_dtc_setting,
}
use obd_simulator.Uds.ReadWrite.{write_vin, handle_write_data_by_id, handle_input_output_control}
use obd_simulator.Uds.Periodic.{handle_read_data_periodic, mode_div}
use obd_simulator.Uds.Obd.{handle_obd2_service04}

module _ (tick : ℕ → ℕ) (req : List ℕ) {a : App} (v : IsApp a) where
  pub handle_session_control-IsApp : IsApp (handle_session_control tick req a).1
  unfolding handle_session_control enter_session set_session hand_over dtc_setting_control
  handle_session_control-IsApp =
      ground (arith, length-periodic_stop_all a.periodic, periodic_stop_all-Distinct a.periodic)

  pub handle_security_access-IsApp : IsApp (handle_security_access tick req a).1
  unfolding handle_security_access request_seed send_key
  handle_security_access-IsApp = ground arith

module _ (req : List ℕ) {a : App} (v : IsApp a) where
  pub handle_ecu_reset-IsApp : IsApp (handle_ecu_reset req a).1
  unfolding handle_ecu_reset
  handle_ecu_reset-IsApp = ground arith

  pub handle_clear_dtc-IsApp : IsApp (handle_clear_dtc req a).1
  unfolding handle_clear_dtc
  handle_clear_dtc-IsApp = ground (arith, dtc_clear-SameSizes a.dtc)

  pub handle_obd2_service04-IsApp : IsApp (handle_obd2_service04 a).1
  unfolding handle_obd2_service04
  handle_obd2_service04-IsApp = ground (arith, dtc_clear-SameSizes a.dtc)

  pub handle_routine_control-IsApp : IsApp (handle_routine_control req a).1
  unfolding handle_routine_control start_routine
  handle_routine_control-IsApp =
      ground (arith, dtc_clear-SameSizes a.dtc, inject_demo-SameSizes a.sim a.dtc)

  pub handle_communication_control-IsApp : IsApp (handle_communication_control req a).1
  unfolding handle_communication_control
  handle_communication_control-IsApp = ground arith

  pub handle_control_dtc_setting-IsApp : IsApp (handle_control_dtc_setting req a).1
  unfolding handle_control_dtc_setting dtc_setting_control
  handle_control_dtc_setting-IsApp = ground arith

  pub handle_input_output_control-IsApp : IsApp (handle_input_output_control req a).1
  unfolding handle_input_output_control
  handle_input_output_control-IsApp = ground arith

  pub handle_write_data_by_id-IsApp : IsApp (handle_write_data_by_id req a).1
  unfolding handle_write_data_by_id write_vin
  handle_write_data_by_id-IsApp = ground (
    arith,
    length-memcpy a.vin 0 (take 17 (drop 3 req)),
    length-set (memcpy a.vin 0 (take 17 (drop 3 req))) 17 0,
    get_or-set (memcpy a.vin 0 (take 17 (drop 3 req))) 17 0 0,
  )

  pub handle_read_data_periodic-IsApp : IsApp (handle_read_data_periodic req a).1
  unfolding handle_read_data_periodic mode_div
  handle_read_data_periodic-IsApp = ground (
    arith,
    length-periodic_stop_all a.periodic,
    periodic_stop_all-Distinct a.periodic,
    length-stop_each (drop 2 req) a.periodic,
    stop_each-Distinct (drop 2 req) a.periodic,
    length-subscribe_each (mode_div (get_or req 1 0 % 128)) a.dyn (drop 2 req) a.periodic,
    subscribe_each-Distinct (mode_div (get_or req 1 0 % 128)) a.dyn (drop 2 req) a.periodic,
  )
