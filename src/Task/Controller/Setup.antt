-- ===== src/Task/Controller/Setup.antt =====
-- What the CAN controller is set up for after the start and after a re-initialisation.
use obd_simulator.Prelude.{
  refl, ap, ◌∙◌, List, [], Bool, true, false, ◌≡◌, Option, none, some, arith, if◌then◌else◌,
}
use obd_simulator.Task.Controller.{
  FdcanInit, RangeFilter, GlobalFilter, Interrupt, CanHal, Board, fd_init, all_standard,
  standard_only, notifications, init_fd, configure_filters, start_notification, start_up,
  enter_safe_state, recover_bus_off, attempt,
}

-- What a controller is set up for, `none` where nothing is set since its reset.
pub record Setup : Type 0 where
  pub settings : Option FdcanInit
  pub filter : Option RangeFilter
  pub global_filter : Option GlobalFilter
  pub interrupts : List Interrupt
  pub is_running : Bool

abbrev pub after_reset : Setup
after_reset = record {
  settings = none;
  filter = none;
  global_filter = none;
  interrupts = [];
  is_running = false;
}

-- What the HAL documents: a call that succeeds sets its own part and leaves the others; a controller
-- is not running once it is stopped; a reset of the peripheral undoes every part.
pub record CanLaws {C : Type 0} (hal : CanHal C) (setup : C → Setup) : Type 0 where
  pub init-ok :
      (i : FdcanInit) (c : C)
      → (hal.init i c).0 ≡ true
      → setup (hal.init i c).1 ≡ record (setup c) { settings = some i }
  pub config_filter-ok :
      (f : RangeFilter) (c : C)
      → (hal.config_filter f c).0 ≡ true
      → setup (hal.config_filter f c).1 ≡ record (setup c) { filter = some f }
  pub config_global_filter-setup :
      (g : GlobalFilter) (c : C)
      → setup (hal.config_global_filter g c) ≡ record (setup c) { global_filter = some g }
  pub activate_notification-ok :
      (is : List Interrupt) (c : C)
      → (hal.activate_notification is c).0 ≡ true
      → setup (hal.activate_notification is c).1 ≡ record (setup c) { interrupts = is }
  pub start-ok :
      (c : C)
      → (hal.start c).0 ≡ true
      → setup (hal.start c).1 ≡ record (setup c) { is_running = true }
  pub stop-setup : (c : C) → (setup (hal.stop c)).is_running ≡ false
  pub pulse_reset-setup : (c : C) → setup (hal.pulse_reset c) ≡ after_reset

-- The set-up of a controller that runs as the code configures it, for a global filter.
abbrev pub configured : Option GlobalFilter → Setup
configured g = record {
  settings = some fd_init;
  filter = some all_standard;
  global_filter = g;
  interrupts = notifications;
  is_running = true;
}

module _ {C : Type 0} (hal : CanHal C) (setup : C → Setup) (laws : CanLaws hal setup) where
  attempt-setup :
      (r : Bool × C) (f : C → Bool × C) (g : Setup → Setup)
      → ((c : C) → (f c).0 ≡ true → setup (f c).1 ≡ g (setup c))
      → (attempt r f).0 ≡ true
      → (r.0 ≡ true) × (setup (attempt r f).1 ≡ g (setup r.1))
  unfolding attempt
  attempt-setup (true, c) f g law ok = (refl, law c ok)
  attempt-setup (false, c) f g law ok = ground (arith, ok)

  -- The four calls, with a step `h` between the filter and the interrupts.
  unfoldable bring_up : (C → C) → C → Bool × C
  bring_up h c =
      let filtered = attempt (hal.init fd_init c) (hal.config_filter all_standard) in
      let notified = attempt filtered (λ c'. hal.activate_notification notifications (h c')) in
      attempt notified (λ c'. hal.start c')

  bring_up-configured :
      (h : C → C) (g : Option GlobalFilter → Option GlobalFilter)
      → ((c : C) → setup (h c) ≡ record (setup c) { global_filter = g (setup c).global_filter })
      → (c : C) → setup c ≡ after_reset
      → (bring_up h c).0 ≡ true
      → setup (bring_up h c).1 ≡ configured (g none)
  unfolding bring_up
  bring_up-configured h g law c fresh ok =
      let with_interrupts : Setup → Setup = λ s. record s { interrupts = notifications } in
      let filtered = attempt (hal.init fd_init c) (hal.config_filter all_standard) in
      let notified = attempt filtered (λ c'. hal.activate_notification notifications (h c')) in
      let running =
        attempt-setup notified (λ c'. hal.start c') (λ s. record s { is_running = true })
          laws.start-ok ok in
      let interrupts =
        attempt-setup filtered (λ c'. hal.activate_notification notifications (h c'))
          (λ s. record s { global_filter = g s.global_filter; interrupts = notifications })
          (λ c' e.
            laws.activate_notification-ok notifications (h c') e ∙ ap with_interrupts (law c'))
          running.0 in
      let filter =
        attempt-setup (hal.init fd_init c) (hal.config_filter all_standard)
          (λ s. record s { filter = some all_standard }) (laws.config_filter-ok all_standard)
          interrupts.0 in
      cc (running.1, interrupts.1, filter.1, laws.init-ok fd_init c filter.0, fresh)

  -- From a controller after its reset, a start without an error leaves it running with the settings
  -- for CAN FD, the filter that passes every standard identifier, the global filter that rejects
  -- extended identifiers, and the four interrupts.
  pub start_up-configured :
      (c : C)
      → setup c ≡ after_reset
      → (start_up hal c).0 ≡ true
      → setup (start_up hal c).1 ≡ configured (some standard_only)
  unfolding start_up init_fd configure_filters start_notification bring_up
  start_up-configured c fresh ok =
      bring_up-configured (hal.config_global_filter standard_only) (λ g. some standard_only)
        (laws.config_global_filter-setup standard_only) c fresh ok

  -- What a re-initialisation of a board comes to: the controller runs, and the DE pin is as before;
  -- or the controller is stopped, and the pin is low.
  abbrev pub Restored : Board C → Bool × Board C → Type 0
  Restored before (true, b) =
      (setup b.controller ≡ configured none) × (b.driver_enable ≡ before.driver_enable)
  Restored before (false, b) = ((setup b.controller).is_running ≡ false) × (b.driver_enable ≡ false)

  settle-Restored :
      (b : Board C) (r : Bool × C)
      → (r.0 ≡ true → setup r.1 ≡ configured none)
      → Restored b (
          if r.0
          then (true, record b { controller = r.1 })
          else (false, enter_safe_state hal (record b { controller = r.1 })))
  unfolding enter_safe_state
  settle-Restored b (true, c) done = (done refl, refl)
  settle-Restored b (false, c) done = (laws.stop-setup c, refl)

  -- From any state of the board, a re-initialisation after bus-off either leaves the controller
  -- running with the settings, the filter and the interrupts of the start, but with no global
  -- filter, and the DE pin as it was; or it ends with the controller stopped and the DE pin low.
  pub recover_bus_off-Restored : (b : Board C) → Restored b (recover_bus_off hal b)
  unfolding recover_bus_off init_fd configure_filters start_notification bring_up
  recover_bus_off-Restored b =
      let reset = hal.pulse_reset (hal.stop b.controller) in
      settle-Restored b (bring_up (λ c. c) reset) (
        bring_up-configured (λ c. c) (λ g. g) (λ c. refl) reset
          (laws.pulse_reset-setup (hal.stop b.controller)))
