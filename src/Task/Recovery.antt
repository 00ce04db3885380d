-- ===== src/Task/Recovery.antt =====
-- The restart of the CAN controller in the round of vMainTask of Core/Src/main.c, for a receive error
-- counter that stays above 127.
use obd_simulator.Prelude.{
  ℕ, suc, ◌+◌, ◌%◌, ◌/◌, ◌≡◌, ◌<◌, List, [], ◌∷◌, Bool, true, false, ◌&&◌, ◌==◌, ltb, leb,
  if◌then◌else◌, arith, refl, u32, length, ◌^◌, ap, ap₂, ◌∙◌,
}

-- `rec_check_tick` and `ep_ticks`
pub record Passive : Type 0 where
  pub rec_check_tick : ℕ
  pub ep_ticks : ℕ

-- The receive error counter in the register ECR.
unfoldable pub receive_errors : ℕ → ℕ
receive_errors ecr = ecr / 256 % 256

-- One check of the counter; true if the controller is stopped and started.
unfoldable pub check_passive : ℕ → ℕ → Bool × ℕ
check_passive ecr ep_ticks =
    if ltb 127 (receive_errors ecr)
    then (let seen = u32 (ep_ticks + 1) in if leb 3 seen then (true, 0) else (false, seen))
    else (false, 0)

-- The part of a round, which checks every hundredth time.
unfoldable pub recover_round : ℕ → Passive → Bool × Passive
recover_round ecr p =
    let count = u32 (p.rec_check_tick + 1) in
    let (restarted, seen) = check_passive ecr p.ep_ticks in
    if count % 100 == 0
    then (restarted, record { rec_check_tick = count; ep_ticks = seen })
    else (false, record p { rec_check_tick = count })

-- Rounds, with the register's value in each; true for each that restarts the controller.
unfoldable pub recover_rounds : List ℕ → Passive → List Bool
recover_rounds [] p = []
recover_rounds (ecr ∷ ecrs) p =
    let (restarted, p') = recover_round ecr p in restarted ∷ recover_rounds ecrs p'

-- The specification: `count` rounds have gone, and the last `streak` checks were error-passive; a
-- restart comes at every third check of a streak.
unfoldable pub streak_next : ℕ → ℕ → ℕ → ℕ
streak_next ecr now streak =
    if now % 100 == 0 then (if ltb 127 (receive_errors ecr) then suc streak else 0) else streak

unfoldable pub is_restart : ℕ → ℕ → ℕ → Bool
is_restart ecr now streak =
    (now % 100 == 0) && ltb 127 (receive_errors ecr) && (streak_next ecr now streak % 3 == 0)

unfoldable pub restarts : List ℕ → ℕ → ℕ → List Bool
restarts [] count streak = []
restarts (ecr ∷ ecrs) count streak =
    is_restart ecr (suc count) streak
    ∷ restarts ecrs (suc count) (streak_next ecr (suc count) streak)

recover_round-restarted :
    (ecr count streak : ℕ)
    → suc count < 2 ^ 32
    → (recover_round ecr (record { rec_check_tick = count; ep_ticks = streak % 3 })).0
      ≡ is_restart ecr (suc count) streak
unfolding recover_round check_passive is_restart streak_next
recover_round-restarted ecr count streak h = ground arith

recover_round-streak :
    (ecr count streak : ℕ)
    → suc count < 2 ^ 32
    → (recover_round ecr (record { rec_check_tick = count; ep_ticks = streak % 3 })).1
      ≡ record { rec_check_tick = suc count; ep_ticks = streak_next ecr (suc count) streak % 3 }
unfolding recover_round check_passive streak_next
recover_round-streak ecr count streak h = ground arith

-- Over fewer than 2 ^ 32 rounds since the start, whatever the register holds in each, the controller
-- is restarted in exactly those rounds that are a hundredth one, find the receive error counter
-- above 127 and are with that the third, sixth, ninth and so on check in a row that does.
pub recover_rounds-restarts :
    (ecrs : List ℕ) (count streak : ℕ)
    → count + length ecrs < 2 ^ 32
    → recover_rounds ecrs (record { rec_check_tick = count; ep_ticks = streak % 3 })
      ≡ restarts ecrs count streak
unfolding recover_rounds restarts
recover_rounds-restarts [] count streak h = refl
recover_rounds-restarts (ecr ∷ ecrs) count streak h =
    let next = streak_next ecr (suc count) streak in
    ap₂ (λ b bs. b ∷ bs) (recover_round-restarted ecr count streak (omega (arith, h)))
      (ap (recover_rounds ecrs) (recover_round-streak ecr count streak (omega (arith, h)))
        ∙ recover_rounds-restarts ecrs (suc count) next (omega (arith, h)))
