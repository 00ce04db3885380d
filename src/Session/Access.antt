-- ===== src/Session/Access.antt =====
-- The access policy table of Core/Src/diag_session.c.
use obd_simulator.Prelude.{
  ℕ, ◌≡◌, ◌≢◌, ◌⊎◌, Bool, true, false, not, ◌&&◌, List, [], ◌∷◌, ◌==◌, if◌then◌else◌, arith,
}
use obd_simulator.Session.{Session, session_extended, sec_locked}

pub data Access : Type 0 where
  access_ok access_wrong_session access_locked : Access

-- svc_access_t
pub record Rule : Type 0 where
  pub sid : ℕ
  pub need_extended : Bool
  pub need_security : Bool

abbrev rule : ℕ → Bool → Bool → Rule
rule s e c = record { sid = s; need_extended = e; need_security = c }

unfoldable pub access_rules : List Rule
access_rules =
    rule 0x31 true true
    ∷ rule 0x14 true false
    ∷ rule 0x2E true true
    ∷ rule 0x2F true true
    ∷ rule 0x23 true true
    ∷ rule 0x2A true false
    ∷ rule 0x2C true false
    ∷ rule 0x28 true false
    ∷ rule 0x85 true false
    ∷ []

-- The loop of DiagSession_CheckAccess.
unfoldable pub check_rules : List Rule → ℕ → Session → Access
check_rules [] sid s = access_ok
check_rules (r ∷ rs) sid s =
    if r.sid == sid
    then (if r.need_extended && not (s.session_type == session_extended)
        then access_wrong_session
        else if r.need_security && s.security_level == sec_locked
        then access_locked
        else access_ok)
    else check_rules rs sid s

unfoldable pub check_access : ℕ → Session → Access
unfolding check_rules access_rules
check_access sid s = check_rules access_rules sid s

-- The services that the table restricts, and those that also want the unlock.
abbrev pub IsSecured : ℕ → Type 0
IsSecured sid = (sid ≡ 0x31) ⊎ ((sid ≡ 0x2E) ⊎ ((sid ≡ 0x2F) ⊎ (sid ≡ 0x23)))

abbrev pub IsRestricted : ℕ → Type 0
IsRestricted sid =
    IsSecured sid ⊎ ((sid ≡ 0x14) ⊎ ((sid ≡ 0x2A) ⊎ ((sid ≡ 0x2C) ⊎ ((sid ≡ 0x28) ⊎ (sid ≡ 0x85)))))

-- A restricted service outside the extended session is refused for the session, whatever the
-- security level.
pub restricted_wrong_session :
    (sid : ℕ) (s : Session)
    → IsRestricted sid
    → s.session_type ≢ session_extended
    → check_access sid s ≡ access_wrong_session
unfolding check_access
restricted_wrong_session sid s r n = ground arith

-- In the extended session, a service that wants the unlock is refused exactly while locked.
pub secured_locked :
    (sid : ℕ) (s : Session)
    → IsSecured sid
    → s.session_type ≡ session_extended
    → check_access sid s ≡ (if s.security_level == sec_locked then access_locked else access_ok)
unfolding check_access
secured_locked sid s r n = ground arith
