-- ===== src/Auth/Revalidation.antt =====
-- Service.Revalidate: the users who may no longer use this instance.
use pici.Base.{
  ℕ, ◌+◌, String, Bool, true, false, not, ◌&&◌, Option, none, some, List, [], ◌∷◌, ltb, leb, str_eq,
  if◌then◌else◌,
}
use pici.Accounts.{
  User, Accounts, list_active_users, update_user_oauth_token, set_user_org_check, disable_user,
  delete_user_sessions, delete_expired_sessions,
}
use pici.Auth.{
  AuthError, unauthorized, access_denied, token_invalid, provider_unavailable, other, Result,
  accepted, rejected, Token, Service, membership_check_interval, refresh_leeway, authorized,
}

-- Whether the stored access token is to be renewed before it is used.
abbrev pub is_renewed : ℕ → User → Bool
is_renewed now u =
    not (str_eq u.oauth_refresh_token "")
    && elim u.oauth_expires_at [ none ↦ false | some t ↦ leb t (now + refresh_leeway) ]

-- What the provider makes of the refresh token, if it is asked.
abbrev pub renewal : Service → ℕ → User → Option (Result Token)
renewal s now u = if is_renewed now u then some (s.provider.refresh u.oauth_refresh_token) else none

abbrev pub renewed : Accounts → User → Option (Result Token) → Accounts × Result String
renewed a u none = (a, accepted u.oauth_access_token)
renewed a u (some (rejected e)) = (a, rejected e)
renewed a u (some (accepted t)) = (
  update_user_oauth_token a u.id t.access_token t.refresh_token t.expires_at,
  accepted t.access_token,
)

-- Service.accessToken
unfoldable pub access_token : Service → ℕ → Accounts → User → Accounts × Result String
access_token s now a u = renewed a u (renewal s now u)

-- Service.disable
unfoldable pub disable : Accounts → User → ℕ → Accounts
disable a u now = delete_user_sessions (disable_user a u.id now) u.id

-- errors.Is(err, ErrTokenInvalid)
abbrev pub is_token_invalid : AuthError → Bool
is_token_invalid token_invalid = true
is_token_invalid unauthorized = false
is_token_invalid access_denied = false
is_token_invalid provider_unavailable = false
is_token_invalid other = false

-- The switch on what `authorized` returns.
abbrev pub after_authorized : (now later : ℕ) → User → Accounts → Result Bool → Accounts
after_authorized now later u a (accepted true) = set_user_org_check a u.id now
after_authorized now later u a (accepted false) = disable a u later
after_authorized now later u a (rejected e) = if is_token_invalid e then disable a u later else a

abbrev pub after_token : Service → (now later : ℕ) → User → Accounts → Result String → Accounts
after_token s now later u a (rejected e) = if is_token_invalid e then disable a u later else a
after_token s now later u a (accepted access) =
    after_authorized now later u a (authorized s u.login access)

-- Whether the last check is recent enough.
abbrev pub is_checked : ℕ → User → Bool
is_checked now u = elim u.last_org_check_at [
  | none ↦ false
  | some t ↦ ltb now (t + membership_check_interval)
]

-- What the clock says in the rounds of a revalidation, by the id of the user: in accessToken, and in
-- disable.
pub record Clock : Type 0 where
  pub renewing : String → ℕ
  pub disabling : String → ℕ

-- One round of the loop of Revalidate, which began at `now`.
unfoldable pub revalidate_user : Service → (now : ℕ) → (later : Clock) → Accounts → User → Accounts
unfolding access_token
revalidate_user s now later a u =
    if not (str_eq u.provider s.name)
    then disable a u (later.disabling u.id)
    else if is_checked now u
    then a
    else let (a', r) = access_token s (later.renewing u.id) a u in
      after_token s now (later.disabling u.id) u a' r

unfoldable pub revalidate_users :
    Service → (now : ℕ) → (later : Clock) → Accounts → List User → Accounts
unfolding revalidate_user
revalidate_users s now later a [] = a
revalidate_users s now later a (u ∷ users) =
    revalidate_users s now later (revalidate_user s now later a u) users

-- Service.Revalidate
unfoldable pub revalidate : Service → (now : ℕ) → (later : Clock) → Accounts → Accounts
unfolding revalidate_users
revalidate s now later a =
    delete_expired_sessions (revalidate_users s now later a (list_active_users a)) now
