-- ===== src/Auth/Rotation.antt =====
-- What a session verifies, and what a refresh makes of it.
use semantask.Prelude.{
  ℕ, ◌+◌, ◌*◌, ◌/◌, ltb, Bool-cases, sym, ap, ◌∙◌, if◌then◌else◌, ◌<◌, ◌==◌, ==_iff, or_else, true,
  false, Option, none, some, String, str_eq, is_present, ◌≡◌, ◌↔◌, refl, arith, eq_refl,
  Option-cases, inl, inr,
}
use semantask.Prelude.Result.{ok, is_ok}
use semantask.Auth.Session.{
  RefreshTokenPayload, Session, Sessions, active, update_session, rotate_session_token_hash,
  is_revoked, check_session, check_session_iff, verify_session,
}
use semantask.Auth.Refresh.{
  User, Tokens, refresh_expires_in, refresh_ttl_ms, refuse_user, issue_tokens, continue_refresh,
  refresh_service,
}

module _ {Token : Type 0} (verify : (now : ℕ) → Token → Option RefreshTokenPayload)
    (hash : Token → String) where
  -- The session passes every test for the token.
  abbrev pub Passes : (token : Token) → RefreshTokenPayload → Session → (now : ℕ) → Type 0
  Passes token p s now =
      (str_eq s.user_id p.sub ≡ true)
      × (is_revoked s ≡ false)
      × (now < s.expires_at)
      × (is_present s.refresh_token_hash ≡ true)
      × (str_eq s.refresh_token_hash (hash token) ≡ true)

  from-verify_session :
      (sessions : Sessions) (token : Token) (now : ℕ) (p : RefreshTokenPayload) (s : Session)
      → verify now token ≡ some p
      → sessions p.session_id ≡ some s
      → verify_session verify hash sessions token now ≡ check_session verify hash token p s now
  unfolding verify_session
  from-verify_session sessions token now p s v f = rw (v, verify_session) (rw f refl)

  lost-verify_session :
      (sessions : Sessions) (token : Token) (now : ℕ) (p : RefreshTokenPayload) (s : Session)
      (q : RefreshTokenPayload)
      → verify now token ≡ some q
      → sessions q.session_id ≡ none
      → verify_session verify hash sessions token now ≡ ok (s, p)
      → ⊥
  unfolding verify_session
  lost-verify_session sessions token now p s q v n h = ground arith

  check-same :
      (token : Token) (q : RefreshTokenPayload) (r : Session) (now : ℕ) (s : Session)
      (p : RefreshTokenPayload)
      → check_session verify hash token q r now ≡ ok (s, p)
      → (r ≡ s) × (q ≡ p) × Passes token q r now
  unfolding check_session
  check-same token q r now s p h = ground arith

  -- A token verifies, to a payload and a session, exactly when its signature does to that payload,
  -- the payload's session is stored, belongs to the payload's user, was not revoked and has not
  -- expired, and its hash is that of this token.
  pub verify_session_iff :
      (sessions : Sessions) (token : Token) (now : ℕ) (p : RefreshTokenPayload) (s : Session)
      → (verify_session verify hash sessions token now ≡ ok (s, p))
        ↔ (verify now token ≡ some p) × (sessions p.session_id ≡ some s) × Passes token p s now
  unfolding verify_session
  verify_session_iff sessions token now p s = (
    λ h. elim (Option-cases (verify now token)) [
      | inl n ↦ absurd (ground (arith, rw n at h))
      | inr (q, v) ↦ elim (Option-cases (sessions q.session_id)) [
        | inl n ↦ absurd (lost-verify_session sessions token now p s q v n h)
        | inr (r, f) ↦
            let c = rw (from-verify_session sessions token now q r v f) at h in
            let (same_s, same_p, passes) = check-same token q r now s p c in
            (rw (← same_p) v, rw (← same_s, ← same_p) f, rw (← same_s, ← same_p) passes)
      ]
    ],
    λ (v, f, passes).
        rw (from-verify_session sessions token now p s v f)
          ((check_session_iff verify hash token p s now).0.1 passes),
  )

-- What jsonwebtoken documents: a signed token verifies to what was signed, until the second of the
-- signing plus its life, and a token that verifies does so to one payload.
pub record IsJwt {Token : Type 0} (verify : (now : ℕ) → Token → Option RefreshTokenPayload)
    (sign : (now expires_in : ℕ) → RefreshTokenPayload → (jti : String) → Token) : Type 0 where
  pub signed :
      (t now life : ℕ) (q : RefreshTokenPayload) (j : String)
      → verify t (sign now life q j) ≡ (if ltb (t / 1000) (now / 1000 + life) then some q else none)
  pub one_payload :
      (t t' : ℕ) (token : Token) (p q : RefreshTokenPayload)
      → verify t token ≡ some p
      → verify t' token ≡ some q
      → p ≡ q

-- The life of a token ends with the second in which that of its session does, or before.
live_session :
    (t now : ℕ) → t / 1000 < now / 1000 + 7 * 24 * 60 * 60 → t < now + 7 * 24 * 60 * 60 * 1000
live_session t now h = omega arith

module _ {Token : Type 0} (verify : (now : ℕ) → Token → Option RefreshTokenPayload)
    (hash : Token → String)
    (sign : (now expires_in : ℕ) → RefreshTokenPayload → (jti : String) → Token)
    (sign_access : (sub role : String) → (token_version : ℕ) → String)
    (users : String → Option User) where
  expired-verify_session :
      (sessions : Sessions) (token : Token) (t : ℕ)
      → verify t token ≡ none
      → is_ok (verify_session verify hash sessions token t) ≡ false
  unfolding verify_session
  expired-verify_session sessions token t h = ground arith

  stored-update :
      (sessions : Sessions) (id : String) (f : Session → Session) (s : Session)
      → sessions id ≡ some s
      → ((update_session sessions id f).0 id ≡ some (f s))
        × ((update_session sessions id f).1 ≡ some (f s))
  unfolding update_session
  stored-update sessions id f s h = rw (h, update_session) (rw (eq_refl id) refl, refl)

  abbrev next_token : RefreshTokenPayload → User → (jti : String) → (now : ℕ) → Token
  next_token p u jti now =
      sign now refresh_expires_in
        (record { sub = p.sub; session_id = p.session_id; token_version = u.token_version }) jti

  abbrev rotated : Session → (token : Token) → (now : ℕ) → Session
  rotated s token now = record s {
    refresh_token_hash = hash token;
    state = active;
    last_active_at = now;
    expires_at = now + refresh_ttl_ms;
  }

  abbrev after_rotation :
      Sessions → RefreshTokenPayload → User → (jti : String) → (now : ℕ) → Sessions
  after_rotation sessions p u jti now =
      (rotate_session_token_hash sessions p.session_id (hash (next_token p u jti now)) now
        refresh_ttl_ms).0

  abbrev pub tokens_of : RefreshTokenPayload → User → (jti : String) → (now : ℕ) → Tokens Token
  tokens_of p u jti now = record {
    access_token = sign_access u.id (or_else u.role "user") u.token_version;
    refresh_token = next_token p u jti now;
    user_id = u.id;
    session_id = p.session_id;
  }

  ok-issue_tokens :
      (sessions : Sessions) (p : RefreshTokenPayload) (u : User) (jti : String) (now : ℕ)
      (s : Session)
      → sessions p.session_id ≡ some s
      → issue_tokens verify hash sign sign_access users sessions p u jti now
        ≡ (after_rotation sessions p u jti now, ok (tokens_of p u jti now))
  unfolding issue_tokens rotate_session_token_hash
  ok-issue_tokens sessions p u jti now s h = rw (
    (stored-update sessions p.session_id (λ x. rotated x (next_token p u jti now) now) s h).1,
    issue_tokens,
  )

  ok-refresh_service :
      (sessions : Sessions) (old : Token) (jti : String) (t0 now : ℕ) (p : RefreshTokenPayload)
      (s : Session) (u : User)
      → verify_session verify hash sessions old t0 ≡ ok (s, p)
      → sessions p.session_id ≡ some s
      → users p.sub ≡ some u
      → refuse_user (some u) ≡ none
      → (p.token_version == u.token_version) ≡ true
      → refresh_service verify hash sign sign_access users sessions old jti t0 now
        ≡ (after_rotation sessions p u jti now, ok (tokens_of p u jti now))
  unfolding refresh_service continue_refresh
  ok-refresh_service sessions old jti t0 now p s u v f us allowed same =
      rw (v, refresh_service)
        (rw (us, continue_refresh)
          (rw allowed (rw same (ok-issue_tokens sessions p u jti now s f))))

  ok-check_session :
      (token : Token) (p : RefreshTokenPayload) (s : Session) (t : ℕ)
      → Passes verify hash token p s t
      → is_ok (check_session verify hash token p s t) ≡ true
  unfolding check_session
  ok-check_session token p s t h = ground arith

  other-check_session :
      (token : Token) (p : RefreshTokenPayload) (s : Session) (t : ℕ)
      → str_eq s.refresh_token_hash (hash token) ≡ false
      → is_ok (check_session verify hash token p s t) ≡ false
  unfolding check_session
  other-check_session token p s t h = ground arith

  -- A token whose hash its session does not have verifies at no time.
  replaced :
      (sessions : Sessions) (token : Token) (t0 t : ℕ) (p : RefreshTokenPayload) (s : Session)
      → IsJwt verify sign
      → verify t0 token ≡ some p
      → sessions p.session_id ≡ some s
      → str_eq s.refresh_token_hash (hash token) ≡ false
      → is_ok (verify_session verify hash sessions token t) ≡ false
  replaced sessions token t0 t p s jwt v f differ = elim (Option-cases (verify t token)) [
    | inl n ↦ expired-verify_session sessions token t n
    | inr (q, w) ↦
        let same : q ≡ p = jwt.one_payload t t0 token q p w v in
        rw (from-verify_session verify hash sessions token t p s (w ∙ ap some same) f)
          (other-check_session token p s t differ)
  ]

  -- The refresh of a token that verifies, for a user who is active and whose token version is the
  -- token's, hands out a new refresh token; that one verifies exactly until seven days after the second
  -- of its signing, and the old one never again, where the tokens are as their library documents, a
  -- hash is no empty text and the two hashes differ.
  pub refresh-rotates :
      (sessions : Sessions) (old : Token) (jti : String) (t0 now : ℕ) (p : RefreshTokenPayload)
      (s : Session) (u : User)
      → IsJwt verify sign
      → ((token : Token) → is_present (hash token) ≡ true)
      → str_eq (hash (next_token p u jti now)) (hash old) ≡ false
      → verify_session verify hash sessions old t0 ≡ ok (s, p)
      → users p.sub ≡ some u
      → refuse_user (some u) ≡ none
      → p.token_version ≡ u.token_version
      → let (after, r) =
          refresh_service verify hash sign sign_access users sessions old jti t0 now in
        (tokens : Tokens Token) × (r ≡ ok tokens)
        × ((t : ℕ)
            → is_ok (verify_session verify hash after tokens.refresh_token t)
              ≡ ltb (t / 1000) (now / 1000 + 7 * 24 * 60 * 60))
        × ((t : ℕ) → is_ok (verify_session verify hash after old t) ≡ false)
  unfolding rotate_session_token_hash
  refresh-rotates sessions old jti t0 now p s u jwt present_hash differ v us allowed same =
      let (vp, f, (mine, live, young, filled, eq)) =
        (verify_session_iff verify hash sessions old t0 p s).0 v in
      let done =
        ok-refresh_service sessions old jti t0 now p s u v f us allowed
          ((==_iff p.token_version u.token_version).1 same) in
      let next = next_token p u jti now in
      let there = (stored-update sessions p.session_id (λ x. rotated x next now) s f).0 in
      let after = after_rotation sessions p u jti now in
      let q : RefreshTokenPayload = record {
        sub = p.sub;
        session_id = p.session_id;
        token_version = u.token_version;
      } in
      rw done (
        tokens_of p u jti now,
        refl,
        λ t. elim (Bool-cases (ltb (t / 1000) (now / 1000 + 7 * 24 * 60 * 60))) [
          | inl young ↦
              rw
                (from-verify_session verify hash after next t q (rotated s next now)
                  (rw young at (jwt.signed t now refresh_expires_in q jti)) there)
                (ok-check_session next q (rotated s next now) t (
                  mine,
                  live,
                  live_session t now (ground arith),
                  present_hash next,
                  eq_refl (hash next),
                )
                  ∙ sym young)
          | inr over ↦
              expired-verify_session after next t
                (rw over at (jwt.signed t now refresh_expires_in q jti))
              ∙ sym over
        ],
        λ t. replaced after old t0 t p (rotated s next now) jwt vp there differ,
      )

  ok-continue_refresh :
      (sessions : Sessions) (p : RefreshTokenPayload) (jti : String) (now : ℕ) (s : Session)
      (u : User)
      → sessions p.session_id ≡ some s
      → users p.sub ≡ some u
      → refuse_user (some u) ≡ none
      → (p.token_version == u.token_version) ≡ true
      → continue_refresh verify hash sign sign_access users sessions p jti now
        ≡ (after_rotation sessions p u jti now, ok (tokens_of p u jti now))
  unfolding continue_refresh
  ok-continue_refresh sessions p jti now s u f us allowed same =
      rw (us, continue_refresh) (rw allowed (rw same (ok-issue_tokens sessions p u jti now s f)))

  -- Two refreshes of one token, both verified before either has written the session, both hand
  -- out tokens; afterwards the refresh token of the first to write does not verify, where the
  -- tokens are as their library documents and the hashes of the two differ.
  pub concurrent_refresh :
      (sessions : Sessions) (first second : String) (now later : ℕ) (p : RefreshTokenPayload)
      (s : Session) (u : User)
      → IsJwt verify sign
      → str_eq (hash (next_token p u second later)) (hash (next_token p u first now)) ≡ false
      → sessions p.session_id ≡ some s
      → users p.sub ≡ some u
      → refuse_user (some u) ≡ none
      → p.token_version ≡ u.token_version
      → let (one, r) = continue_refresh verify hash sign sign_access users sessions p first now in
        let (two, q) = continue_refresh verify hash sign sign_access users one p second later in
        (r ≡ ok (tokens_of p u first now))
        × (q ≡ ok (tokens_of p u second later))
        × ((t : ℕ) → is_ok (verify_session verify hash two (next_token p u first now) t) ≡ false)
  unfolding rotate_session_token_hash
  concurrent_refresh sessions first second now later p s u jwt differ f us allowed same =
      let eq = (==_iff p.token_version u.token_version).1 same in
      let q : RefreshTokenPayload = record {
        sub = p.sub;
        session_id = p.session_id;
        token_version = u.token_version;
      } in
      let fresh : ltb (now / 1000) (now / 1000 + 7 * 24 * 60 * 60) ≡ true = ground arith in
      let one = after_rotation sessions p u first now in
      let s1 = rotated s (next_token p u first now) now in
      let f1 =
        (stored-update sessions p.session_id (λ x. rotated x (next_token p u first now) now) s
          f).0 in
      let f2 =
        (stored-update one p.session_id (λ x. rotated x (next_token p u second later) later) s1
          f1).0 in
      rw (ok-continue_refresh sessions p first now s u f us allowed eq) (
        rw (ok-continue_refresh one p second later s1 u f1 us allowed eq) (
          refl,
          refl,
          λ t.
              replaced (after_rotation one p u second later) (next_token p u first now) now t q
                (rotated s1 (next_token p u second later) later) jwt
                (rw fresh at (jwt.signed now now refresh_expires_in q first)) f2 differ,
        ))
