-- ===== src/Auth/Sessions.antt =====
-- Session cookies and API tokens: which are accepted, and for whom.
use pici.Base.{
  ℕ, ◌<◌, ◌≡◌, refl, sym, inl, inr, true, false, not, ◌||◌, Option, none, some, [], ◌∷◌, arith, leb,
  str_eq, Bool-cases, Text,
}
use mathlib.Core.Option.{some-injective}
use pici.Accounts.{
  User, Session, ApiToken, Accounts, is_active, get_user, get_session, get_api_token_by_hash,
}
use pici.Auth.{
  Result, accepted, rejected, Service, session_user, session_found, authenticate_session,
  is_expired, token_user, token_found, authenticate_token,
}

-- The table holds an unexpired session with this secret, of the user, who is active and signed in
-- with this provider.
pub record IsSessionOf (s : Service) (now : ℕ) (a : Accounts) (raw : Text) (user : User)
    (session : Session) : Type 0 where
  pub found : get_session a (s.provider.hash_token raw) ≡ some session
  pub unexpired : now < session.expires_at
  pub owner : get_user a session.user_id ≡ some user
  pub active : is_active user ≡ true
  pub same_provider : str_eq user.provider s.name ≡ true

-- The user in a result.
abbrev pub user_in : Result (User × Session) → Option User
user_in (accepted (user, session)) = some user
user_in (rejected e) = none

session_user-accepted :
    (s : Service) (now : ℕ) (a : Accounts) (raw : Text) (session : Session) (o : Option User)
    (user : User)
    → get_session a (s.provider.hash_token raw) ≡ some session
    → now < session.expires_at
    → get_user a session.user_id ≡ o
    → user_in (session_user s now a session o).1 ≡ some user
    → IsSessionOf s now a raw user session
session_user-accepted s now a raw session none user f e g h = cc
session_user-accepted s now a raw session (some u) user f e g h =
    elim (Bool-cases (not (is_active u) || not (str_eq u.provider s.name))) [
      | inl out ↦ let clash : none ≡ some user = rw out at h in cc
      | inr fine ↦
          let same : some u ≡ some user = rw fine at h in
          let is_own : u ≡ user = some-injective u user same in
          rw (sym is_own) (record {
            found = f;
            unexpired = e;
            owner = g;
            active = ground arith;
            same_provider = ground arith;
          })
    ]

session_found-accepted :
    (s : Service) (now : ℕ) (a : Accounts) (raw : Text) (o : Option Session) (user : User)
    → get_session a (s.provider.hash_token raw) ≡ o
    → user_in (session_found s now a o).1 ≡ some user
    → (session : Session) × IsSessionOf s now a raw user session
session_found-accepted s now a raw none user f h = cc
session_found-accepted s now a raw (some session) user f h =
    elim (Bool-cases (leb session.expires_at now)) [
      | inl e ↦ let clash : none ≡ some user = rw e at h in cc
      | inr e ↦ (
        session,
        session_user-accepted s now a raw session (get_user a session.user_id) user f (ground arith)
            refl (rw e at h),
      )
    ]

-- A session cookie is accepted only for a user who is active and of this provider, and only with an
-- unexpired session of theirs in the table, found by the hash of the cookie.
pub authenticate_session-accepted :
    (s : Service) (now : ℕ) (a : Accounts) (raw : Text) (user : User)
    → user_in (authenticate_session s now a raw).1 ≡ some user
    → (session : Session) × IsSessionOf s now a raw user session
unfolding authenticate_session
authenticate_session-accepted s now a [] user h = cc
authenticate_session-accepted s now a (c ∷ raw) user h =
    session_found-accepted s now a (c ∷ raw) (get_session a (s.provider.hash_token (c ∷ raw))) user
      refl h

-- The table holds an unexpired API token with this secret, of the user, who is active and signed in
-- with this provider.
pub record IsTokenOf (s : Service) (now : ℕ) (a : Accounts) (raw : Text) (user : User)
    (token : ApiToken) : Type 0 where
  pub found : get_api_token_by_hash a (s.provider.hash_token raw) ≡ some token
  pub unexpired : is_expired now token.expires_at ≡ false
  pub owner : get_user a token.user_id ≡ some user
  pub active : is_active user ≡ true
  pub same_provider : str_eq user.provider s.name ≡ true

abbrev pub value_in : Result User → Option User
value_in (accepted user) = some user
value_in (rejected e) = none

token_user-accepted :
    (s : Service) (now : ℕ) (a : Accounts) (raw : Text) (token : ApiToken) (o : Option User)
    (user : User)
    → get_api_token_by_hash a (s.provider.hash_token raw) ≡ some token
    → is_expired now token.expires_at ≡ false
    → get_user a token.user_id ≡ o
    → value_in (token_user s now a token o).1 ≡ some user
    → IsTokenOf s now a raw user token
token_user-accepted s now a raw token none user f e g h = cc
token_user-accepted s now a raw token (some u) user f e g h =
    elim (Bool-cases (not (is_active u) || not (str_eq u.provider s.name))) [
      | inl out ↦ let clash : none ≡ some user = rw out at h in cc
      | inr fine ↦
          let same : some u ≡ some user = rw fine at h in
          rw (sym (some-injective u user same)) (record {
            found = f;
            unexpired = e;
            owner = g;
            active = ground arith;
            same_provider = ground arith;
          })
    ]

token_found-accepted :
    (s : Service) (now : ℕ) (a : Accounts) (raw : Text) (o : Option ApiToken) (user : User)
    → get_api_token_by_hash a (s.provider.hash_token raw) ≡ o
    → value_in (token_found s now a o).1 ≡ some user
    → (token : ApiToken) × IsTokenOf s now a raw user token
token_found-accepted s now a raw none user f h = cc
token_found-accepted s now a raw (some token) user f h =
    elim (Bool-cases (is_expired now token.expires_at)) [
      | inl e ↦ let clash : none ≡ some user = rw e at h in cc
      | inr e ↦ (
        token,
        token_user-accepted s now a raw token (get_user a token.user_id) user f e refl (rw e at h),
      )
    ]

-- An API token is accepted only for a user who is active and of this provider, and only with an
-- unexpired token of theirs in the table, found by its hash.
pub authenticate_token-accepted :
    (s : Service) (now : ℕ) (a : Accounts) (raw : Text) (user : User)
    → value_in (authenticate_token s now a raw).1 ≡ some user
    → (token : ApiToken) × IsTokenOf s now a raw user token
unfolding authenticate_token
authenticate_token-accepted s now a [] user h = cc
authenticate_token-accepted s now a (c ∷ raw) user h =
    token_found-accepted s now a (c ∷ raw)
      (get_api_token_by_hash a (s.provider.hash_token (c ∷ raw))) user refl h
