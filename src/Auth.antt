-- ===== src/Auth.antt =====
-- Service of internal/auth/auth.go: who may use this instance. Times are in milliseconds.
pub mod Revalidation
pub mod Judged
pub mod Everyone
pub mod Whole
pub mod LogIn
pub mod ShutOut
pub mod Trips
pub mod Sessions
use pici.Base.{
  ℕ, zero, suc, ◌+◌, ◌-◌, ◌*◌, ◌≤◌, ◌<◌, String, ◌≡◌, refl, sym, ap, ◌∙◌, ◌≢◌, ◌↔◌, ◌⊎◌, inl, inr,
  Bool, true, false, not, ◌&&◌, ◌||◌, Option, none, some, List, [], ◌∷◌, ◌++◌, map, arith, eq_iff,
  ltb, leb, ◌==◌, str_eq, if◌then◌else◌, ==_iff, Bool-cases, Option-cases, length, get_elem?, any,
  all, drop, take, All, length-append, Text, codes, has_prefix, contains, ℤ, pos, negsuc, decrement,
  increment, is_zero, is_negative, is_positive, Dict, get, get_or, put, get_or-put, get-put, count,
  count-append, length-le_of_count, count-eq_of_length, select, select_all, update, delete,
  order_by, str_leb,
}
use pici.Accounts.{
  User, Session, ApiToken, Accounts, is_active, get_user, upsert_user, list_active_users,
  update_user_oauth_token, set_user_org_check, disable_user, insert_session, get_session,
  touch_session, delete_session, delete_user_sessions, delete_expired_sessions, insert_api_token,
  get_api_token_by_hash, touch_api_token,
}

-- The errors of the package; `other` is an error of the store or of the random numbers.
pub data AuthError : Type 0 where
  unauthorized access_denied token_invalid provider_unavailable other : AuthError

pub data Result (A : Type 0) : Type 0 where
  accepted : A → Result A
  rejected : AuthError → Result A

pub record Token : Type 0 where
  pub access_token : String
  pub refresh_token : String
  pub expires_at : Option ℕ

pub record Identity : Type 0 where
  pub provider_user_id : String
  pub login : String
  pub name : String
  pub avatar_url : String
  pub token : Token
  pub scopes : List String

-- What a Service calls: a Provider, strings.ToLower, and hashToken, the SHA-256 in hexadecimal.
-- A team is its path.
pub record Provider : Type 0 where
  pub exchange : (code nonce verifier : String) → Result Identity
  pub refresh : (refresh_token : String) → Result Token
  pub teams : (access_token : String) → Result (List String)
  pub required_scope : String
  pub verify : (access_token : String) → Option AuthError
  pub lower : String → String
  pub hash_token : Text → String

-- Service; the sets are lists without order.
pub record Service : Type 0 where
  pub provider : Provider
  pub name : String
  pub teams : List String
  pub users : List String
  pub session_ttl : ℕ

-- 24 hours, 1 hour and 5 minutes
abbrev pub membership_check_interval : ℕ
membership_check_interval = 86400000

abbrev pub session_touch_interval : ℕ
session_touch_interval = 3600000

abbrev pub token_touch_interval : ℕ
token_touch_interval = 300000

abbrev pub refresh_leeway : ℕ
refresh_leeway = 300000

abbrev pub is_in : List String → String → Bool
is_in set s = any (λ x. str_eq x s) set

-- normalizeAccessList, with strings.TrimSpace and strings.ToLower
unfoldable pub normalize_access_list : (trim lower : String → String) → List String → List String
normalize_access_list trim lower [] = []
normalize_access_list trim lower (v ∷ values) =
    let rest = normalize_access_list trim lower values in
    if str_eq (trim v) "" then rest else lower (trim v) ∷ rest

-- NewService
abbrev pub new_service :
    (trim : String → String)
    → Provider
    → (name : String) → (teams users : List String) → ℕ
    → Service
new_service trim provider name teams users session_ttl = record {
  provider = provider;
  name = name;
  teams = normalize_access_list trim provider.lower teams;
  users = normalize_access_list trim provider.lower users;
  session_ttl = session_ttl;
}

abbrev pub has_user : Service → String → Bool
has_user s login = is_in s.users (s.provider.lower login)

abbrev pub is_member : Service → (login : String) → Result (List String) → Result Bool
is_member s login (rejected e) = rejected e
is_member s login (accepted teams) =
    accepted (has_user s login || any (λ t. is_in s.teams (s.provider.lower t)) teams)

abbrev pub is_verified : Service → (login : String) → Option AuthError → Result Bool
is_verified s login (some e) = rejected e
is_verified s login none = accepted (has_user s login)

abbrev pub is_empty : List String → Bool
is_empty [] = true
is_empty (x ∷ xs) = false

-- Service.authorized
unfoldable pub authorized : Service → (login access_token : String) → Result Bool
authorized s login access_token =
    if is_empty s.teams
    then is_verified s login (s.provider.verify access_token)
    else is_member s login (s.provider.teams access_token)

-- The user that Login stores.
abbrev pub user_of : Service → ℕ → Identity → User
user_of s now i = record {
  id = "";
  provider = s.name;
  provider_user_id = i.provider_user_id;
  login = i.login;
  name = i.name;
  avatar_url = i.avatar_url;
  oauth_access_token = i.token.access_token;
  oauth_refresh_token = i.token.refresh_token;
  oauth_expires_at = i.token.expires_at;
  created_at = now;
  last_login_at = now;
  last_org_check_at = some now;
  disabled_at = none;
}

abbrev pub stored : Option (Accounts × User) → Result (Accounts × User)
stored none = rejected other
stored (some r) = accepted r

abbrev pub log_in_allowed :
    Service
    → (new_id : String) → (now : ℕ) → Accounts
    → Identity
    → Result Bool
    → Result (Accounts × User)
log_in_allowed s new_id now a i (rejected e) = rejected e
log_in_allowed s new_id now a i (accepted false) = rejected access_denied
log_in_allowed s new_id now a i (accepted true) =
    stored (upsert_user new_id now a (user_of s now i))

-- Whether the scope that lists the teams is missing.
abbrev pub lacks_scope : Service → Identity → Bool
lacks_scope s i =
    not (is_empty s.teams)
    && (not (str_eq s.provider.required_scope "") && not (is_in i.scopes s.provider.required_scope))

abbrev pub log_in_as :
    Service → (new_id : String) → (now : ℕ) → Accounts → Result Identity → Result (Accounts × User)
log_in_as s new_id now a (rejected e) = rejected e
log_in_as s new_id now a (accepted i) =
    if lacks_scope s i
    then rejected access_denied
    else log_in_allowed s new_id now a i (authorized s i.login i.token.access_token)

-- Service.Login; `new_id` is the UUID of a new user.
unfoldable pub log_in :
    Service
    → (new_id : String) → (now : ℕ) → Accounts
    → (code nonce verifier : String) → Result (Accounts × User)
unfolding authorized
log_in s new_id now a code nonce verifier =
    log_in_as s new_id now a (s.provider.exchange code nonce verifier)

-- randomToken: the prefix and 32 random bytes in base64, which `none` lacks.
abbrev pub random_token : (prefix : Text) → Option Text → Option Text
random_token prefix none = none
random_token prefix (some random) = some (prefix ++ random)

abbrev pub new_session :
    Service → ℕ → (user_id : String) → (user_agent : List ℕ) → (raw csrf : Text) → Session
new_session s now user_id user_agent raw csrf = record {
  id = s.provider.hash_token raw;
  user_id = user_id;
  csrf_token = csrf;
  created_at = now;
  last_seen_at = now;
  expires_at = now + s.session_ttl;
  user_agent = if ltb 512 (length user_agent) then take 512 user_agent else user_agent;
}

abbrev pub with_session : Text → Session → Option Accounts → Result (Accounts × (Text × Session))
with_session raw session none = rejected other
with_session raw session (some a) = accepted (a, (raw, session))

-- Service.CreateSession
unfoldable pub create_session :
    Service
    → ℕ
    → Accounts
    → (user_id : String) → (user_agent : List ℕ) → (random random_csrf : Option Text)
    → Result (Accounts × (Text × Session))
create_session s now a user_id user_agent random random_csrf =
    elim (random_token (codes "pici_sess_") random) [
      | none ↦ rejected other
      | some raw ↦ elim (random_token [] random_csrf) [
        | none ↦ rejected other
        | some csrf ↦
            let session = new_session s now user_id user_agent raw csrf in
            with_session raw session (insert_session a session)
      ]
    ]

abbrev pub is_blank : Text → Bool
is_blank [] = true
is_blank (c ∷ raw) = false

-- Whether the last time the session was seen is long enough ago for its expiry to slide.
abbrev pub is_touched : ℕ → Session → Bool
is_touched now session = leb (session.last_seen_at + session_touch_interval) now

abbrev pub slid_table : Service → ℕ → Accounts → Session → Accounts
slid_table s now a session =
    if is_touched now session then touch_session a session.id now (now + s.session_ttl) else a

abbrev pub slid : Service → ℕ → Session → Session
slid s now session =
    if is_touched now session
    then record session { last_seen_at = now; expires_at = now + s.session_ttl }
    else session

abbrev pub session_user :
    Service → ℕ → Accounts → Session → Option User → Accounts × Result (User × Session)
session_user s now a session none = (a, rejected unauthorized)
session_user s now a session (some user) =
    if not (is_active user) || not (str_eq user.provider s.name)
    then (delete_user_sessions a user.id, rejected unauthorized)
    else (slid_table s now a session, accepted (user, slid s now session))

abbrev pub session_found :
    Service → ℕ → Accounts → Option Session → Accounts × Result (User × Session)
session_found s now a none = (a, rejected unauthorized)
session_found s now a (some session) =
    if leb session.expires_at now
    then (delete_session a session.id, rejected unauthorized)
    else session_user s now a session (get_user a session.user_id)

-- Service.AuthenticateSession
unfoldable pub authenticate_session :
    Service → ℕ → Accounts → (raw : Text) → Accounts × Result (User × Session)
authenticate_session s now a raw =
    if is_blank raw
    then (a, rejected unauthorized)
    else session_found s now a (get_session a (s.provider.hash_token raw))

-- displayPrefix
unfoldable pub display_prefix : Text → Text
display_prefix raw =
    let n = length (codes "pici_pat_") + 6 in if ltb (length raw) n then raw else take n raw

abbrev pub new_api_token :
    Service → ℕ → (new_id user_id name : String) → Option ℕ → (raw : Text) → ApiToken
new_api_token s now new_id user_id name expires_at raw = record {
  id = new_id;
  user_id = user_id;
  name = name;
  prefix = display_prefix raw;
  token_hash = s.provider.hash_token raw;
  created_at = now;
  last_used_at = none;
  expires_at = expires_at;
}

abbrev pub with_api_token :
    Text → ApiToken → Option Accounts → Result (Accounts × (Text × ApiToken))
with_api_token raw token none = rejected other
with_api_token raw token (some a) = accepted (a, (raw, token))

-- Service.CreateAPIToken; `new_id` is a new UUID.
unfoldable pub create_api_token :
    Service
    → ℕ
    → Accounts
    → (new_id user_id name : String) → Option ℕ
    → (random : Option Text) → Result (Accounts × (Text × ApiToken))
unfolding display_prefix
create_api_token s now a new_id user_id name expires_at random =
    elim (random_token (codes "pici_pat_") random) [
      | none ↦ rejected other
      | some raw ↦
          let token = new_api_token s now new_id user_id name expires_at raw in
          with_api_token raw token (insert_api_token a token)
    ]

abbrev pub is_expired : ℕ → Option ℕ → Bool
is_expired now none = false
is_expired now (some t) = leb t now

abbrev pub is_stale : ℕ → Option ℕ → Bool
is_stale now none = true
is_stale now (some t) = leb (t + token_touch_interval) now

abbrev pub token_user : Service → ℕ → Accounts → ApiToken → Option User → Accounts × Result User
token_user s now a token none = (a, rejected unauthorized)
token_user s now a token (some user) =
    if not (is_active user) || not (str_eq user.provider s.name)
    then (a, rejected unauthorized)
    else (
      if is_stale now token.last_used_at then touch_api_token a token.id now else a,
      accepted user,
    )

abbrev pub token_found : Service → ℕ → Accounts → Option ApiToken → Accounts × Result User
token_found s now a none = (a, rejected unauthorized)
token_found s now a (some token) =
    if is_expired now token.expires_at
    then (a, rejected unauthorized)
    else token_user s now a token (get_user a token.user_id)

-- Service.AuthenticateToken
unfoldable pub authenticate_token : Service → ℕ → Accounts → (raw : Text) → Accounts × Result User
authenticate_token s now a raw =
    if is_blank raw
    then (a, rejected unauthorized)
    else token_found s now a (get_api_token_by_hash a (s.provider.hash_token raw))
