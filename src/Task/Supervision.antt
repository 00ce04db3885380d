-- ===== src/Task/Supervision.antt =====
-- The supervision of the tasks of Core/Src/main.c by the independent watchdog.
use obd_simulator.Prelude.{
  ℕ, suc, ◌+◌, ◌≡◌, ◌≤◌, ◌<◌, List, [], ◌∷◌, Bool, true, false, ◌&&◌, ◌||◌, leb, not, ◌++◌,
  if◌then◌else◌, arith, Bool-cases, inl, inr, u32,
}

-- `s_led_tick_counter` and the three bits of `g_task_alive_flags`
pub record Alive : Type 0 where
  pub led_tick_counter : ℕ
  pub main : Bool
  pub can_rx : Bool
  pub rs485 : Bool

-- LED_TOGGLE_PERIOD_MS / SIM_UPDATE_PERIOD_MS
abbrev pub led_rounds : ℕ
led_rounds = 50

-- What a round does about the LED and the watchdog; true if it refreshes the watchdog.
unfoldable pub supervise : Alive → Bool × Alive
supervise s =
    let counter = u32 (s.led_tick_counter + 1) in
    if leb led_rounds counter
    then (if s.can_rx && s.rs485
        then (true, record { led_tick_counter = 0; main = false; can_rx = false; rs485 = false })
        else (false, record s { led_tick_counter = 0; main = true }))
    else (false, record s { led_tick_counter = counter })

-- A task comes round its loop: vCanRxTask and vRS485Task mark themselves, vMainTask supervises.
pub data Turn : Type 0 where
  can_rx_turn : Turn
  rs485_turn : Turn
  main_turn : Turn

unfoldable pub take_turn : Turn → Alive → Bool × Alive
take_turn can_rx_turn s = (false, record s { can_rx = true })
take_turn rs485_turn s = (false, record s { rs485 = true })
take_turn main_turn s = supervise s

-- How often a sequence of turns refreshes the watchdog, and the state behind it.
unfoldable pub take_turns : List Turn → Alive → ℕ × Alive
take_turns [] s = (0, s)
take_turns (t ∷ ts) s =
    let (refreshed, s') = take_turn t s in
    let (n, s'') = take_turns ts s' in (if refreshed then suc n else n, s'')

abbrev pub lacks_can_rx : List Turn → Bool
lacks_can_rx [] = true
lacks_can_rx (can_rx_turn ∷ ts) = false
lacks_can_rx (rs485_turn ∷ ts) = lacks_can_rx ts
lacks_can_rx (main_turn ∷ ts) = lacks_can_rx ts

abbrev pub lacks_rs485 : List Turn → Bool
lacks_rs485 [] = true
lacks_rs485 (can_rx_turn ∷ ts) = lacks_rs485 ts
lacks_rs485 (rs485_turn ∷ ts) = false
lacks_rs485 (main_turn ∷ ts) = lacks_rs485 ts

abbrev pub main_turns : List Turn → ℕ
main_turns [] = 0
main_turns (can_rx_turn ∷ ts) = main_turns ts
main_turns (rs485_turn ∷ ts) = main_turns ts
main_turns (main_turn ∷ ts) = suc (main_turns ts)

abbrev one : Bool → ℕ
one b = if b then 1 else 0

can_rx_silent :
    (ts : List Turn) (s : Alive) → lacks_can_rx ts ≡ true → (take_turns ts s).0 ≤ one s.can_rx
unfolding take_turns take_turn supervise
can_rx_silent [] s h = omega arith
can_rx_silent (can_rx_turn ∷ ts) s h = ground arith
can_rx_silent (rs485_turn ∷ ts) s h = can_rx_silent ts (record s { rs485 = true }) h
can_rx_silent (main_turn ∷ ts) s h = let rest = can_rx_silent ts (supervise s).1 h in ground arith

rs485_silent :
    (ts : List Turn) (s : Alive) → lacks_rs485 ts ≡ true → (take_turns ts s).0 ≤ one s.rs485
unfolding take_turns take_turn supervise
rs485_silent [] s h = omega arith
rs485_silent (rs485_turn ∷ ts) s h = ground arith
rs485_silent (can_rx_turn ∷ ts) s h = rs485_silent ts (record s { can_rx = true }) h
rs485_silent (main_turn ∷ ts) s h = let rest = rs485_silent ts (supervise s).1 h in ground arith

-- While the CAN task, or the RS-485 task, does not come round its loop, the watchdog is refreshed
-- at most once, however the other tasks run, from any state.
pub take_turns-starved :
    (ts : List Turn) (s : Alive)
    → lacks_can_rx ts || lacks_rs485 ts ≡ true
    → (take_turns ts s).0 ≤ 1
take_turns-starved ts s h = elim (Bool-cases (lacks_can_rx ts)) [
  | inl silent ↦ let few = can_rx_silent ts s silent in ground arith
  | inr heard ↦ let few = rs485_silent ts s (ground arith) in ground arith
]

-- Short of the fiftieth round nothing is refreshed, and the marks are kept.
quiet_turns :
    (ts : List Turn) (s : Alive)
    → s.led_tick_counter + main_turns ts < led_rounds
    → take_turns ts s ≡ (
      0,
      record s {
        led_tick_counter = s.led_tick_counter + main_turns ts;
        can_rx = s.can_rx || not (lacks_can_rx ts);
        rs485 = s.rs485 || not (lacks_rs485 ts);
      },
    )
unfolding take_turns take_turn supervise
quiet_turns [] s h = ground arith
quiet_turns (can_rx_turn ∷ ts) s h =
    let rest = quiet_turns ts (record s { can_rx = true }) h in ground (arith, rest)
quiet_turns (rs485_turn ∷ ts) s h =
    let rest = quiet_turns ts (record s { rs485 = true }) h in ground (arith, rest)
quiet_turns (main_turn ∷ ts) s h =
    let counter = s.led_tick_counter + 1 in
    let rest = quiet_turns ts (record s { led_tick_counter = counter }) (omega (arith, h)) in
    ground (arith, rest)

take_turns-append :
    (ts us : List Turn) (s : Alive)
    → take_turns (ts ++ us) s ≡ (
      (take_turns ts s).0 + (take_turns us (take_turns ts s).1).0,
      (take_turns us (take_turns ts s).1).1,
    )
unfolding take_turns
take_turns-append [] us s = ground arith
take_turns-append (t ∷ ts) us s =
    let rest = take_turns-append ts us (take_turn t s).1 in ground (arith, rest)

-- If the CAN task and the RS-485 task both come round their loops before the LED counter reaches
-- fifty rounds of the main task, the fiftieth refreshes the watchdog, for the first time in the
-- sequence, and every task has to report again.
pub take_turns-fed :
    (ts : List Turn) (s : Alive)
    → s.led_tick_counter + main_turns ts ≡ 49
    → lacks_can_rx ts ≡ false
    → lacks_rs485 ts ≡ false
    → take_turns (ts ++ main_turn ∷ []) s
      ≡ (1, record { led_tick_counter = 0; main = false; can_rx = false; rs485 = false })
unfolding take_turns take_turn supervise
take_turns-fed ts s h c r =
    let quiet = quiet_turns ts s (omega (arith, h)) in
    ground (arith, quiet, take_turns-append ts (main_turn ∷ []) s)
