-- ===== src/Accounts.antt =====
-- The users, sessions and API tokens of internal/stores/sqlite.go. Times are in milliseconds.
use pici.Base.{
  ℕ, String, Bool, true, false, not, ◌&&◌, ◌||◌, Option, none, some, List, [], ◌∷◌, ◌++◌, ltb, leb,
  ◌==◌, str_eq, if◌then◌else◌, any, Text, select, select_all, update, delete, order_by, str_leb,
}

-- User, as scanUser of the store reads it: the cipher of the two OAuth tokens is left out.
pub record User : Type 0 where
  pub id : String
  pub provider : String
  pub provider_user_id : String
  pub login : String
  pub name : String
  pub avatar_url : String
  pub oauth_access_token : String
  pub oauth_refresh_token : String
  pub oauth_expires_at : Option ℕ
  pub created_at : ℕ
  pub last_login_at : ℕ
  pub last_org_check_at : Option ℕ
  pub disabled_at : Option ℕ

-- Session; `user_agent` is a list of runes.
pub record Session : Type 0 where
  pub id : String
  pub user_id : String
  pub csrf_token : Text
  pub created_at : ℕ
  pub last_seen_at : ℕ
  pub expires_at : ℕ
  pub user_agent : List ℕ

pub record ApiToken : Type 0 where
  pub id : String
  pub user_id : String
  pub name : String
  pub prefix : Text
  pub token_hash : String
  pub created_at : ℕ
  pub last_used_at : Option ℕ
  pub expires_at : Option ℕ

-- The tables users, sessions and api_tokens.
pub record Accounts : Type 0 where
  pub users : List User
  pub sessions : List Session
  pub tokens : List ApiToken

abbrev pub is_active : User → Bool
is_active u = elim u.disabled_at [ none ↦ true | some t ↦ false ]

abbrev pub has_id : String → User → Bool
has_id id u = str_eq u.id id

-- UNIQUE (provider, provider_user_id)
abbrev pub is_identity : User → User → Bool
is_identity u v = str_eq v.provider u.provider && str_eq v.provider_user_id u.provider_user_id

abbrev pub or_else : ℕ → ℕ → ℕ
or_else fallback t = if t == 0 then fallback else t

-- The row that UpsertUser inserts. The time 0 and the id "" stand for their zero values.
abbrev pub new_user : (new_id : String) (now : ℕ) → User → User
new_user new_id now u =
    let created = or_else now (or_else u.last_login_at u.created_at) in
    record u {
      id = if str_eq u.id "" then new_id else u.id;
      created_at = created;
      last_login_at = or_else created u.last_login_at;
    }

-- ON CONFLICT (provider, provider_user_id) DO UPDATE, for the row that is there
abbrev pub renewed_user : User → User → User
renewed_user u old = record old {
  login = u.login;
  name = u.name;
  avatar_url = u.avatar_url;
  oauth_access_token = u.oauth_access_token;
  oauth_refresh_token =
      if str_eq u.oauth_refresh_token "" then old.oauth_refresh_token else u.oauth_refresh_token;
  oauth_expires_at = u.oauth_expires_at;
  last_login_at = u.last_login_at;
  last_org_check_at = u.last_org_check_at;
  disabled_at = none;
}

-- GetUser; `none` is ErrNotFound.
unfoldable pub get_user : Accounts → String → Option User
get_user a id = select (has_id id) a.users

-- What UpsertUser returns: the row that it reads again.
abbrev pub read_again : Accounts → String → Option (Accounts × User)
read_again a id = elim (get_user a id) [ none ↦ none | some u ↦ some (a, u) ]

abbrev pub upsert_row : Accounts → User → Option User → Option (Accounts × User)
upsert_row a new (some old) =
    read_again (record a { users = update (is_identity new) (renewed_user new) a.users }) old.id
upsert_row a new none =
    if any (has_id new.id) a.users
    then none
    else read_again (record a { users = a.users ++ new ∷ [] }) new.id

-- UpsertUser; `none` is an error.
unfoldable pub upsert_user :
    (new_id : String) (now : ℕ) → Accounts → User → Option (Accounts × User)
unfolding get_user
upsert_user new_id now a u =
    let new = new_user new_id now u in upsert_row a new (select (is_identity new) a.users)

-- ListActiveUsers
unfoldable pub list_active_users : Accounts → List User
list_active_users a = order_by (λ u v. str_leb u.login v.login) (select_all is_active a.users)

unfoldable pub update_user_oauth_token :
    Accounts → (id access refresh : String) → Option ℕ → Accounts
update_user_oauth_token a id access refresh expires_at = record a {
  users =
      update (has_id id)
        (λ u. record u {
          oauth_access_token = access;
          oauth_refresh_token = refresh;
          oauth_expires_at = expires_at;
        })
        a.users;
}

unfoldable pub set_user_org_check : Accounts → String → ℕ → Accounts
set_user_org_check a id t = record a {
  users = update (has_id id) (λ u. record u { last_org_check_at = some t }) a.users;
}

unfoldable pub disable_user : Accounts → String → ℕ → Accounts
disable_user a id t = record a {
  users = update (has_id id) (λ u. record u { disabled_at = some t }) a.users;
}

-- CreateSession; `none` is an error: the id is the primary key, user_id a foreign key.
unfoldable pub insert_session : Accounts → Session → Option Accounts
insert_session a s =
    if any (λ (r : Session). str_eq r.id s.id) a.sessions || not (any (has_id s.user_id) a.users)
    then none
    else some (record a { sessions = a.sessions ++ s ∷ [] })

unfoldable pub get_session : Accounts → String → Option Session
get_session a id = select (λ (s : Session). str_eq s.id id) a.sessions

unfoldable pub touch_session : Accounts → String → (seen expires : ℕ) → Accounts
touch_session a id seen expires = record a {
  sessions =
      update (λ (s : Session). str_eq s.id id)
        (λ s. record s { last_seen_at = seen; expires_at = expires }) a.sessions;
}

unfoldable pub delete_session : Accounts → String → Accounts
delete_session a id = record a { sessions = delete (λ (s : Session). str_eq s.id id) a.sessions }

unfoldable pub delete_user_session : Accounts → (user_id id : String) → Accounts
delete_user_session a user_id id = record a {
  sessions = delete (λ (s : Session). str_eq s.user_id user_id && str_eq s.id id) a.sessions;
}

unfoldable pub delete_user_sessions : Accounts → String → Accounts
delete_user_sessions a user_id = record a {
  sessions = delete (λ (s : Session). str_eq s.user_id user_id) a.sessions;
}

unfoldable pub delete_expired_sessions : Accounts → ℕ → Accounts
delete_expired_sessions a before = record a {
  sessions = delete (λ (s : Session). ltb s.expires_at before) a.sessions;
}

unfoldable pub list_user_sessions : Accounts → String → List Session
list_user_sessions a user_id =
    order_by (λ (s t : Session). leb t.last_seen_at s.last_seen_at)
      (select_all (λ (s : Session). str_eq s.user_id user_id) a.sessions)

-- CreateAPIToken; `none` is an error: the id is the primary key, the hash is unique, user_id is a
-- foreign key.
unfoldable pub insert_api_token : Accounts → ApiToken → Option Accounts
insert_api_token a t =
    if any (λ (r : ApiToken). str_eq r.id t.id || str_eq r.token_hash t.token_hash) a.tokens
      || not (any (has_id t.user_id) a.users)
    then none
    else some (record a { tokens = a.tokens ++ t ∷ [] })

unfoldable pub get_api_token_by_hash : Accounts → String → Option ApiToken
get_api_token_by_hash a hash = select (λ (t : ApiToken). str_eq t.token_hash hash) a.tokens

unfoldable pub list_api_tokens : Accounts → String → List ApiToken
list_api_tokens a user_id =
    order_by (λ (s t : ApiToken). leb t.created_at s.created_at)
      (select_all (λ (t : ApiToken). str_eq t.user_id user_id) a.tokens)

abbrev pub is_token_of : (user_id id : String) → ApiToken → Bool
is_token_of user_id id t = str_eq t.user_id user_id && str_eq t.id id

unfoldable pub rename_api_token : Accounts → (user_id id name : String) → Accounts
rename_api_token a user_id id name = record a {
  tokens = update (is_token_of user_id id) (λ t. record t { name = name }) a.tokens;
}

unfoldable pub delete_api_token : Accounts → (user_id id : String) → Accounts
delete_api_token a user_id id = record a { tokens = delete (is_token_of user_id id) a.tokens }

unfoldable pub touch_api_token : Accounts → String → ℕ → Accounts
touch_api_token a id t = record a {
  tokens =
      update (λ (r : ApiToken). str_eq r.id id) (λ r. record r { last_used_at = some t }) a.tokens;
}
