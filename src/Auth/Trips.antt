-- ===== src/Auth/Trips.antt =====
-- From the creation of a session or a token to its use.
use pici.Base.{
  ℕ, ◌+◌, ◌<◌, String, ◌≡◌, refl, sym, ap, inl, inr, Bool, true, false, not, ◌||◌, Option, none,
  some, List, [], ◌∷◌, ◌++◌, arith, eq_iff, leb, str_eq, Bool-cases, Option-cases, any, Text, codes,
  select,
}
use mathlib.Core.Option.{some-injective}
use pici.Accounts.{
  User, Session, ApiToken, Accounts, is_active, has_id, get_user, insert_session, get_session,
  insert_api_token, get_api_token_by_hash,
}
use pici.Auth.{
  other, accepted, rejected, Service, new_session, create_session, is_blank, slid, session_user,
  authenticate_session, new_api_token, create_api_token, is_expired, authenticate_token,
}

pub accepted-injective : {A : Type 0} (x y : A) → accepted x ≡ accepted y → x ≡ y
accepted-injective x y e = ap (λ r. elim r [ accepted v ↦ v | rejected _ ↦ x ]) e

module _ {ℓ} {A : Type ℓ} where
  pub select-snoc :
      (p q : A → Bool) (x : A) (xs : List A)
      → any q xs ≡ false
      → ((y : A) → p y ≡ true → q y ≡ true)
      → p x ≡ true
      → select p (xs ++ x ∷ []) ≡ some x
  select-snoc p q x [] none_there sub own = ground arith
  select-snoc p q x (y ∷ ys) none_there sub own = ground (arith, sub y, select-snoc p q x ys)

session_user-active :
    (s : Service) (now : ℕ) (a : Accounts) (session : Session) (user : User)
    → is_active user ≡ true
    → str_eq user.provider s.name ≡ true
    → (session_user s now a session (some user)).1 ≡ accepted (user, slid s now session)
session_user-active s now a session user active same = rw (active, same) refl

insert_session-some :
    (a b : Accounts) (session : Session)
    → insert_session a session ≡ some b
    → (any (λ (r : Session). str_eq r.id session.id) a.sessions ≡ false)
      × (b.sessions ≡ a.sessions ++ session ∷ [])
      × (b.users ≡ a.users)
unfolding insert_session
insert_session-some a b session i =
    elim (Bool-cases (
      any (λ (r : Session). str_eq r.id session.id) a.sessions
      || not (any (has_id session.user_id) a.users))) [
        | inl e ↦ let clash : none ≡ some b = rw e at i in cc
        | inr e ↦
            let same = some-injective _ b (rw e at i) in
            (ground arith, sym (ap (λ x. x.sessions) same), sym (ap (λ x. x.users) same))
      ]

inserted-authenticates :
    (s : Service) (now later : ℕ) (a b : Accounts) (raw : Text) (session : Session) (user : User)
    → insert_session a session ≡ some b
    → session.id ≡ s.provider.hash_token raw
    → is_blank raw ≡ false
    → later < session.expires_at
    → get_user a session.user_id ≡ some user
    → is_active user ≡ true
    → str_eq user.provider s.name ≡ true
    → (authenticate_session s later b raw).1 ≡ accepted (user, slid s later session)
unfolding insert_session authenticate_session get_session get_user
inserted-authenticates s now later a b raw session user i d full live owner active same =
    let (fresh_id, rows, users) = insert_session-some a b session i in
    let f : select (λ (x : Session). str_eq x.id (s.provider.hash_token raw)) b.sessions
        ≡ some session =
      rw (rows, sym d)
        (select-snoc (λ (x : Session). str_eq x.id session.id)
          (λ (x : Session). str_eq x.id session.id) session a.sessions fresh_id (λ y e. e)
          (ground (arith, eq_iff session.id session.id))) in
    let young : leb session.expires_at later ≡ false = ground arith in
    let o : select (has_id session.user_id) b.users ≡ some user = rw users owner in
    rw (full, f, young, o) (session_user-active s later b session user active same)

-- A cookie that CreateSession hands out for an active user of this provider authenticates that user
-- until its session expires, with that session, its expiry slid forward when it is time for that.
pub create_session-authenticates :
    (s : Service) (now later : ℕ) (a b : Accounts) (user : User) (user_agent : List ℕ)
    (random random_csrf : Option Text) (raw : Text) (session : Session)
    → get_user a user.id ≡ some user
    → is_active user ≡ true
    → str_eq user.provider s.name ≡ true
    → create_session s now a user.id user_agent random random_csrf ≡ accepted (b, (raw, session))
    → later < now + s.session_ttl
    → (authenticate_session s later b raw).1 ≡ accepted (user, slid s later session)
unfolding create_session
create_session-authenticates s now later a b user user_agent none c raw session owner active same
      made live =
    cc
create_session-authenticates s now later a b user user_agent (some r) none raw session owner active
      same made live =
    cc
create_session-authenticates s now later a b user user_agent (some r) (some c) raw session owner
      active same made live =
    let fresh_session = new_session s now user.id user_agent (codes "pici_sess_" ++ r) c in
    elim (Option-cases (insert_session a fresh_session)) [
      | inl e ↦ let clash : rejected other ≡ accepted (b, (raw, session)) = rw e at made in cc
      | inr (b', e) ↦
          let eq3 : (b', (codes "pici_sess_" ++ r, fresh_session)) ≡ (b, (raw, session)) =
            accepted-injective _ _ (rw e at made) in
          rw (sym (ap (λ x. x.0) eq3), sym (ap (λ x. x.1.0) eq3), sym (ap (λ x. x.1.1) eq3))
            (inserted-authenticates s now later a b' (codes "pici_sess_" ++ r) fresh_session user e
              refl refl live owner active same)
    ]

insert_api_token-some :
    (a b : Accounts) (token : ApiToken)
    → insert_api_token a token ≡ some b
    → (any (λ (r : ApiToken). str_eq r.id token.id || str_eq r.token_hash token.token_hash) a.tokens
        ≡ false)
      × (b.tokens ≡ a.tokens ++ token ∷ [])
      × (b.users ≡ a.users)
unfolding insert_api_token
insert_api_token-some a b token i =
    elim (Bool-cases (
      any (λ (r : ApiToken). str_eq r.id token.id || str_eq r.token_hash token.token_hash) a.tokens
      || not (any (has_id token.user_id) a.users))) [
        | inl e ↦ let clash : none ≡ some b = rw e at i in cc
        | inr e ↦
            let same = some-injective _ b (rw e at i) in
            (ground arith, sym (ap (λ x. x.tokens) same), sym (ap (λ x. x.users) same))
      ]

inserted_token-authenticates :
    (s : Service) (later : ℕ) (a b : Accounts) (raw : Text) (token : ApiToken) (user : User)
    → insert_api_token a token ≡ some b
    → token.token_hash ≡ s.provider.hash_token raw
    → is_blank raw ≡ false
    → is_expired later token.expires_at ≡ false
    → get_user a token.user_id ≡ some user
    → is_active user ≡ true
    → str_eq user.provider s.name ≡ true
    → (authenticate_token s later b raw).1 ≡ accepted user
unfolding authenticate_token get_api_token_by_hash get_user
inserted_token-authenticates s later a b raw token user i d full live owner active same =
    let (fresh_hash, rows, users) = insert_api_token-some a b token i in
    let f : select (λ (x : ApiToken). str_eq x.token_hash (s.provider.hash_token raw)) b.tokens
        ≡ some token =
      rw (rows, sym d)
        (select-snoc (λ (x : ApiToken). str_eq x.token_hash token.token_hash)
          (λ (x : ApiToken). str_eq x.id token.id || str_eq x.token_hash token.token_hash) token
          a.tokens fresh_hash (λ y e. ground arith)
          (ground (arith, eq_iff token.token_hash token.token_hash))) in
    let o : select (has_id token.user_id) b.users ≡ some user = rw users owner in
    rw (full, f, live, o, active, same) refl

-- An API token that CreateAPIToken hands out for an active user of this provider authenticates that
-- user until it expires, and for good if it has no expiry.
pub create_api_token-authenticates :
    (s : Service) (now later : ℕ) (a b : Accounts) (user : User) (new_id name : String)
    (expires_at : Option ℕ) (random : Option Text) (raw : Text) (token : ApiToken)
    → get_user a user.id ≡ some user
    → is_active user ≡ true
    → str_eq user.provider s.name ≡ true
    → create_api_token s now a new_id user.id name expires_at random ≡ accepted (b, (raw, token))
    → is_expired later expires_at ≡ false
    → (authenticate_token s later b raw).1 ≡ accepted user
unfolding create_api_token
create_api_token-authenticates s now later a b user new_id name expires_at none raw token owner
      active same made live =
    cc
create_api_token-authenticates s now later a b user new_id name expires_at (some r) raw token owner
      active same made live =
    let made_token = new_api_token s now new_id user.id name expires_at (codes "pici_pat_" ++ r) in
    elim (Option-cases (insert_api_token a made_token)) [
      | inl e ↦ let clash : rejected other ≡ accepted (b, (raw, token)) = rw e at made in cc
      | inr (b', e) ↦
          let eq3 : (b', (codes "pici_pat_" ++ r, made_token)) ≡ (b, (raw, token)) =
            accepted-injective _ _ (rw e at made) in
          rw (sym (ap (λ x. x.0) eq3), sym (ap (λ x. x.1.0) eq3))
            (inserted_token-authenticates s later a b' (codes "pici_pat_" ++ r) made_token user e
              refl refl live owner active same)
    ]
