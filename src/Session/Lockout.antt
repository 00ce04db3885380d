-- ===== src/Session/Lockout.antt =====
-- SecurityAccess: attempts and the lockout, over any sequence of calls.
use obd_simulator.Prelude.{
  ℕ, ◌+◌, ◌≡◌, ◌≤◌, ◌<◌, List, [], ◌∷◌, arith, sub32, refl, suc, ◌≢◌, length, ◌∙◌, subst, sym,
}
use obd_simulator.Session.{
  Session, key_ok, key_exceeded_attempts, key_invalid, sec_locked, boot_delay_ms, lockout_time_ms,
  max_fail_attempts, check_security_gate, verify_key, generate_seed, compute_key, compare_key,
}

-- A tester's moves in SecurityAccess: ask for a seed, or send a key; each with the readings of
-- the tick counter that its call makes.
pub data Move : Type 0 where
  ask : (ℕ → ℕ) → Move
  send : (ℕ → ℕ) → ℕ → Move

abbrev readings : Move → ℕ → ℕ
readings (ask tick) = tick
readings (send tick key) = tick

-- One move, the way the handlers make it: a seed is generated behind the gate.
unfoldable pub move : Move → Session → Session
move (ask tick) s =
    let (gate, s') = check_security_gate tick s in
    elim gate [ obd_simulator.Session.gate_ok ↦ generate_seed (λ i. tick (i + 1)) s' | _ ↦ s' ]
move (send tick key) s = (verify_key tick key s).1

unfoldable pub moves : List Move → Session → Session
moves [] s = s
moves (m ∷ ms) s = moves ms (move m s)

-- Every reading that the moves begin with falls into the lockout that started at `start`.
abbrev pub Within : ℕ → List Move → Type 0
Within start [] = Unit {0}
Within start (m ∷ ms) = (sub32 (readings m 0) start < lockout_time_ms) × Within start ms

move-locked :
    (m : Move) (s : Session)
    → max_fail_attempts ≤ s.fail_count
    → sub32 (readings m 0) s.lockout_start < lockout_time_ms
    → move m s ≡ s
unfolding move check_security_gate verify_key
move-locked (ask tick) s h k = ground arith
move-locked (send tick key) s h k = ground arith

moves_locked :
    (ms : List Move) (s : Session)
    → max_fail_attempts ≤ s.fail_count
    → Within s.lockout_start ms
    → moves ms s ≡ s
unfolding moves
moves_locked [] s h w = refl
moves_locked (m ∷ ms) s h w = rw (move-locked m s h w.0) (moves_locked ms s h w.1)

-- A request for a seed and a key behind it, with the readings of both calls.
pub record Attempt : Type 0 where
  pub asks : ℕ → ℕ
  pub sends : ℕ → ℕ
  pub key : ℕ

unfoldable pub attempt : Attempt → Session → Session
unfolding move
attempt t s = move (send t.sends t.key) (move (ask t.asks) s)

unfoldable pub attempts : List Attempt → Session → Session
unfolding attempt
attempts [] s = s
attempts (t ∷ ts) s = attempts ts (attempt t s)

-- Both calls of each attempt come after the boot delay, and the key is not that of the seed which
-- the request for it was given.
abbrev pub AreWrong : List Attempt → Session → Type 0
AreWrong [] s = Unit {0}
AreWrong (t ∷ ts) s =
    (boot_delay_ms ≤ sub32 (t.asks 0) s.boot_tick)
    × (boot_delay_ms ≤ sub32 (t.sends 0) s.boot_tick)
    × (t.key ≢ compute_key (move (ask t.asks) s).seed)
    × AreWrong ts (attempt t s)

-- What a wrong attempt does before the third failure.
record Failed (t : Attempt) (s s' : Session) : Type 0 where
  counted : s'.fail_count ≡ s.fail_count + 1
  kept_level : s'.security_level ≡ s.security_level
  timed : 2 ≤ s.fail_count → s'.lockout_start ≡ t.sends 1

attempt-Failed :
    (t : Attempt) (s : Session)
    → s.fail_count < max_fail_attempts
    → boot_delay_ms ≤ sub32 (t.asks 0) s.boot_tick
    → boot_delay_ms ≤ sub32 (t.sends 0) s.boot_tick
    → t.key ≢ compute_key (move (ask t.asks) s).seed
    → Failed t s (attempt t s)
unfolding attempt move check_security_gate generate_seed verify_key compare_key
attempt-Failed t s few a b wrong = ground arith

-- The attempts, with those that failed before, make three failures: the last time of a key.
abbrev pub last_send : Attempt → List Attempt → ℕ
last_send t [] = t.sends 1
last_send t (u ∷ ts) = last_send u ts

attempts-Failed :
    (t : Attempt) (ts : List Attempt) (s : Session)
    → s.fail_count + suc (length ts) ≡ max_fail_attempts
    → AreWrong (t ∷ ts) s
    → ((attempts (t ∷ ts) s).fail_count ≡ max_fail_attempts)
      × ((attempts (t ∷ ts) s).security_level ≡ s.security_level)
      × ((attempts (t ∷ ts) s).lockout_start ≡ last_send t ts)
unfolding attempts
attempts-Failed t [] s n w =
    let f = attempt-Failed t s (omega (arith, n)) w.0 w.1 w.2 in ground (arith, n, f.timed)
attempts-Failed t (u ∷ ts) s n w =
    let f = attempt-Failed t s (omega (arith, n)) w.0 w.1 w.2 in
    let rest = attempts-Failed u ts (attempt t s) (omega (arith, n, f.counted)) w.3 in
    (rest.0, rest.1 ∙ f.kept_level, rest.2)

-- When wrong keys, each for a seed asked for just before and after the boot delay, bring the failures
-- to three: the security level is as before the first of them, and no sequence of requests for seeds
-- and of keys, the right ones included, has any effect, as long as every call comes before ten
-- seconds have passed since the third wrong key.
pub moves-lockout :
    (t : Attempt) (ts : List Attempt) (ms : List Move) (s : Session)
    → s.fail_count + suc (length ts) ≡ max_fail_attempts
    → AreWrong (t ∷ ts) s
    → Within (last_send t ts) ms
    → (moves ms (attempts (t ∷ ts) s) ≡ attempts (t ∷ ts) s)
      × ((attempts (t ∷ ts) s).security_level ≡ s.security_level)
moves-lockout t ts ms s n w inside =
    let f = attempts-Failed t ts s n w in
    (
      moves_locked ms (attempts (t ∷ ts) s) (omega (arith, f.0))
          (subst (λ start. Within start ms) (sym f.2) inside),
      f.1,
    )
