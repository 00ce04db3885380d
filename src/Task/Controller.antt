-- ===== src/Task/Controller.antt =====
-- The set-up of the CAN controller, Core/Src/fdcan_config.c, and its re-initialisation after bus-off
-- with the safe state behind a failure, Core/Src/main.c.
pub mod Setup
use obd_simulator.Prelude.{ℕ, List, [], ◌∷◌, Bool, true, false, if◌then◌else◌}

-- hfdcan->Init: what the code assigns, with FDCAN_FRAME_FD_BRS, FDCAN_MODE_NORMAL and
-- FDCAN_TX_FIFO_OPERATION as the frame format, mode and transmit queue `true`
pub record FdcanInit : Type 0 where
  pub frame_format_fd_brs : Bool
  pub mode_normal : Bool
  pub auto_retransmission : Bool
  pub transmit_pause : Bool
  pub protocol_exception : Bool
  pub nominal_prescaler : ℕ
  pub nominal_sync_jump_width : ℕ
  pub nominal_time_seg1 : ℕ
  pub nominal_time_seg2 : ℕ
  pub data_prescaler : ℕ
  pub data_sync_jump_width : ℕ
  pub data_time_seg1 : ℕ
  pub data_time_seg2 : ℕ
  pub std_filters_nbr : ℕ
  pub ext_filters_nbr : ℕ
  pub tx_fifo_operation : Bool

-- FDCAN_FilterTypeDef, for a range of standard identifiers that go to FIFO 0
pub record RangeFilter : Type 0 where
  pub filter_index : ℕ
  pub filter_id1 : ℕ
  pub filter_id2 : ℕ

-- The arguments of HAL_FDCAN_ConfigGlobalFilter: true for FDCAN_ACCEPT_IN_RX_FIFO0 of frames with a
-- standard and an extended identifier, and for FDCAN_FILTER_REMOTE of remote frames
pub record GlobalFilter : Type 0 where
  pub accept_standard : Bool
  pub accept_extended : Bool
  pub filter_remote_standard : Bool
  pub filter_remote_extended : Bool

pub data Interrupt : Type 0 where
  rx_fifo0_new_message error_warning error_passive bus_off : Interrupt

-- The HAL's FDCAN driver over a state `C`; true for HAL_OK. `pulse_reset` is
-- __HAL_RCC_FDCAN_FORCE_RESET and __HAL_RCC_FDCAN_RELEASE_RESET.
pub record CanHal (C : Type 0) : Type 0 where
  pub init : FdcanInit → C → Bool × C
  pub config_filter : RangeFilter → C → Bool × C
  pub config_global_filter : GlobalFilter → C → C
  pub activate_notification : List Interrupt → C → Bool × C
  pub start : C → Bool × C
  pub stop : C → C
  pub pulse_reset : C → C

abbrev pub fd_init : FdcanInit
fd_init = record {
  frame_format_fd_brs = true;
  mode_normal = true;
  auto_retransmission = true;
  transmit_pause = false;
  protocol_exception = false;
  nominal_prescaler = 4;
  nominal_sync_jump_width = 2;
  nominal_time_seg1 = 9;
  nominal_time_seg2 = 2;
  data_prescaler = 1;
  data_sync_jump_width = 2;
  data_time_seg1 = 9;
  data_time_seg2 = 2;
  std_filters_nbr = 1;
  ext_filters_nbr = 0;
  tx_fifo_operation = true;
}

abbrev pub all_standard : RangeFilter
all_standard = record { filter_index = 0; filter_id1 = 0x000; filter_id2 = 0x7FF }

abbrev pub standard_only : GlobalFilter
standard_only = record {
  accept_standard = true;
  accept_extended = false;
  filter_remote_standard = true;
  filter_remote_extended = false;
}

abbrev pub notifications : List Interrupt
notifications = rx_fifo0_new_message ∷ error_warning ∷ error_passive ∷ bus_off ∷ []

-- The controller and the level of the RS-485 driver's DE pin
pub record Board (C : Type 0) : Type 0 where
  pub controller : C
  pub driver_enable : Bool

-- The next call, unless the one before failed.
unfoldable pub attempt : {C : Type 0} → Bool × C → (C → Bool × C) → Bool × C
attempt (true, c) f = f c
attempt (false, c) f = (false, c)

module _ {C : Type 0} (hal : CanHal C) where
  -- FDCAN1_InitFD
  unfoldable pub init_fd : C → Bool × C
  init_fd c = hal.init fd_init c

  -- FDCAN1_ConfigureFilters
  unfoldable pub configure_filters : C → Bool × C
  configure_filters c = hal.config_filter all_standard c

  -- FDCAN1_StartNotification
  unfoldable pub start_notification : C → Bool × C
  start_notification c = hal.activate_notification notifications c

  -- The calls of `main`; false if one of them fails, with which `main` stops for good.
  unfoldable pub start_up : C → Bool × C
  unfolding init_fd configure_filters start_notification attempt
  start_up c =
      let filtered = attempt (init_fd c) configure_filters in
      let notified =
        attempt filtered (λ c'. start_notification (hal.config_global_filter standard_only c')) in
      attempt notified (λ c'. hal.start c')

  -- Error_Handler_EnterSafeState up to its endless loop
  unfoldable pub enter_safe_state : Board C → Board C
  enter_safe_state b = record { controller = hal.stop b.controller; driver_enable = false }

  -- The re-initialisation in vMainTask; false if it ends in the safe state.
  unfoldable pub recover_bus_off : Board C → Bool × Board C
  unfolding init_fd configure_filters start_notification enter_safe_state attempt
  recover_bus_off b =
      let filtered =
        attempt (init_fd (hal.pulse_reset (hal.stop b.controller))) configure_filters in
      let notified = attempt filtered start_notification in
      let (ok, c) = attempt notified (λ c'. hal.start c') in
      let b' = record b { controller = c } in
      if ok then (true, b') else (false, enter_safe_state b')
