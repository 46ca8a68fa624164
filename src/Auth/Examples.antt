-- ===== src/Auth/Examples.antt =====
-- The theorems on sessions at a concrete session.
use semantask.Prelude.{
  ℕ, ◌+◌, ◌*◌, ◌/◌, ltb, arith, true, false, Option, none, some, String, str_eq, is_present,
  if◌then◌else◌, ◌≡◌, refl, Bool-cases, inl, inr,
}
use semantask.Prelude.Result.{ok, is_ok}
use semantask.Auth.Session.{
  RefreshTokenPayload, Session, active, Sessions, check_session, verify_session,
}
use semantask.Auth.Refresh.{User, Tokens, continue_refresh, refresh_service, refuse_user}
use semantask.Auth.Rotation.{IsJwt, tokens_of, refresh-rotates, concurrent_refresh}

-- A token that is what was signed, with the second in which it ends.
abbrev Signed : Type 0
Signed = (RefreshTokenPayload × String) × ℕ

abbrev verify : ℕ → Signed → Option RefreshTokenPayload
verify now t = if ltb (now / 1000) t.1 then some t.0.0 else none

abbrev sign : ℕ → ℕ → RefreshTokenPayload → String → Signed
sign now life p jti = ((p, jti), now / 1000 + life)

jwt : IsJwt verify sign
jwt = record { signed = λ t now life q j. refl; one_payload = λ t t' token p q h k. ground arith }

abbrev hash : Signed → String
hash t = if str_eq t.0.1 "j1" then "h1" else "h2"

abbrev sign_access : String → String → ℕ → String
sign_access sub role version = sub

abbrev payload : RefreshTokenPayload
payload = record { sub = "u1"; session_id = "s1"; token_version = 4 }

abbrev session : Session
session = record {
  user_id = "u1";
  refresh_token_hash = "h1";
  revoked_at = none;
  expires_at = 9000;
  last_active_at = 100;
  state = active;
}

abbrev sessions : Sessions
sessions id = if str_eq id "s1" then some session else none

abbrev user : User
user = record {
  id = "u1";
  role = none;
  status = some "active";
  token_version = 4;
  is_deleted = false;
  must_change_password = false;
}

abbrev users : String → Option User
users id = if str_eq id "u1" then some user else none

abbrev banned : String → Option User
banned id = some (record user { token_version = 5 })

abbrev old : Signed
old = ((payload, "j1"), 9)

verified : verify_session verify hash sessions old 1000 ≡ ok (session, payload)
unfolding verify_session check_session
verified = refl

allowed : refuse_user (some user) ≡ none
unfolding refuse_user
allowed = refl

abbrev revoked_user : User
revoked_user = record user { token_version = 5 }

present_hash : (t : Signed) → is_present (hash t) ≡ true
present_hash t = elim (Bool-cases (str_eq t.0.1 "j1")) [ inl e ↦ rw e refl | inr e ↦ rw e refl ]

refresh-rotates_example :
    let (after, r) =
      refresh_service verify hash sign sign_access users sessions old "j2" 1000 1001 in
    (tokens : Tokens Signed) × (r ≡ ok tokens)
    × ((t : ℕ)
        → is_ok (verify_session verify hash after tokens.refresh_token t)
          ≡ ltb (t / 1000) (1001 / 1000 + 7 * 24 * 60 * 60))
    × ((t : ℕ) → is_ok (verify_session verify hash after old t) ≡ false)
refresh-rotates_example =
    refresh-rotates verify hash sign sign_access users sessions old "j2" 1000 1001 payload session
      user jwt present_hash refl verified refl allowed refl

concurrent_refresh_example :
    let (one, r) = continue_refresh verify hash sign sign_access users sessions payload "j1" 1001 in
    let (two, q) = continue_refresh verify hash sign sign_access users one payload "j2" 1002 in
    (r ≡ ok (tokens_of verify hash sign sign_access users payload user "j1" 1001))
    × (q ≡ ok (tokens_of verify hash sign sign_access users payload user "j2" 1002))
    × ((t : ℕ)
        → is_ok (verify_session verify hash two (sign 1001 (7 * 24 * 60 * 60) payload "j1") t)
          ≡ false)
concurrent_refresh_example =
    concurrent_refresh verify hash sign sign_access users sessions "j1" "j2" 1001 1002 payload
      session user jwt refl refl refl allowed refl

abbrev later_users : String → Option User
later_users id = if str_eq id "u1" then some revoked_user else none
