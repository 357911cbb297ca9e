-- ===== src/Examples/SignIn.antt =====
-- Two users, of whom one has lost his tokens.
use pici.Base.{
  ◌≡◌, ◌≢◌, refl, ◌||◌, none, some, [], ◌∷◌, ◌++◌, map, arith, ltb, ◌==◌, str_eq, if◌then◌else◌,
  length, Text, codes, select_all, delete,
}
use pici.Accounts.{
  User, Session, ApiToken, Accounts, get_user, upsert_user, insert_session, get_session,
  insert_api_token, get_api_token_by_hash,
}
use pici.Auth.{
  accepted, rejected, token_invalid, Provider, Service, authorized, log_in, create_session,
  authenticate_session, create_api_token, authenticate_token, display_prefix, slid, new_session,
  new_api_token,
}
use pici.Auth.Sessions.{
  IsSessionOf, IsTokenOf, authenticate_session-accepted, authenticate_token-accepted,
}
use pici.Auth.LogIn.{log_in-authenticates}
use pici.Auth.Trips.{create_api_token-authenticates}
use pici.Auth.Revalidation.{
  Clock, revalidate, revalidate_users, revalidate_user, access_token, disable,
}
use pici.Accounts.{
  list_active_users, set_user_org_check, disable_user, delete_user_sessions,
  delete_expired_sessions,
}
use pici.Auth.ShutOut.{revalidate-shuts_out}
use pici.Auth.Everyone.{is_closed}
use pici.Auth.Whole.{row_after, revalidate-judged}
use pici.Accounts.{is_active}

abbrev ann : User
ann = record {
  id = "u1";
  provider = "github";
  provider_user_id = "1";
  login = "ann";
  name = "Ann";
  avatar_url = "";
  oauth_access_token = "secret";
  oauth_refresh_token = "";
  oauth_expires_at = none;
  created_at = 5;
  last_login_at = 5;
  last_org_check_at = some 5;
  disabled_at = none;
}

-- His tokens have been revoked.
abbrev bob : User
bob = record ann {
  id = "u2";
  provider_user_id = "2";
  login = "bob";
  oauth_access_token = "revoked";
}

abbrev provider : Provider
provider = record {
  exchange = λ code nonce verifier.
      if str_eq code "ok"
      then accepted (record {
        provider_user_id = "1";
        login = "ann";
        name = "Ann";
        avatar_url = "";
        token = record { access_token = "secret"; refresh_token = ""; expires_at = none };
        scopes = [];
      })
      else rejected token_invalid;
  refresh = λ refresh_token. rejected token_invalid;
  teams = λ access_token. rejected token_invalid;
  required_scope = "";
  verify = λ access. if str_eq access "revoked" then some token_invalid else none;
  lower = λ s. s;
  hash_token = λ raw. if length raw == 12 then "hash 12" else "hash 11";
}

abbrev service : Service
service = record {
  provider = provider;
  name = "github";
  teams = [];
  users = "ann" ∷ "bob" ∷ [];
  session_ttl = 7200000;
}

abbrev table : Accounts
table = record { users = ann ∷ bob ∷ []; sessions = []; tokens = [] }

abbrev cookie : Text
cookie = codes "pici_sess_" ++ 65 ∷ 66 ∷ []

abbrev session : Session
session = new_session service 10 "u1" [] cookie (codes "csrf")

abbrev signed_in : Accounts
signed_in = record table { sessions = session ∷ [] }

-- Ann had been disabled.
abbrev locked_out : Accounts
locked_out = record table { users = record ann { disabled_at = some 6 } ∷ bob ∷ [] }

abbrev ann_again : User
ann_again = record ann { last_login_at = 8; last_org_check_at = some 8 }

abbrev unlocked : Accounts
unlocked = record table { users = ann_again ∷ bob ∷ [] }

log_in-authenticates_example :
    (authenticate_session service 20
      (record unlocked { sessions = new_session service 8 "u1" [] cookie (codes "csrf") ∷ [] })
      cookie).1
    ≡ accepted (ann_again, slid service 20 (new_session service 8 "u1" [] cookie (codes "csrf")))
unfolding log_in authorized upsert_user get_user create_session insert_session
log_in-authenticates_example =
    log_in-authenticates service "u9" 8 20 locked_out unlocked
      (record unlocked { sessions = new_session service 8 "u1" [] cookie (codes "csrf") ∷ [] }) "ok"
      "" "" ann_again [] (some (65 ∷ 66 ∷ [])) (some (codes "csrf")) cookie
      (new_session service 8 "u1" [] cookie (codes "csrf")) refl refl refl (omega arith)

authenticate_session-accepted_example :
    (found : Session) × IsSessionOf service 20 signed_in cookie ann found
unfolding authenticate_session get_session get_user
authenticate_session-accepted_example =
    authenticate_session-accepted service 20 signed_in cookie ann refl

abbrev secret : Text
secret = codes "pici_pat_" ++ 65 ∷ 66 ∷ []

abbrev token : ApiToken
token = new_api_token service 10 "t1" "u1" "laptop" none secret

abbrev with_token : Accounts
with_token = record table { tokens = token ∷ [] }

create_api_token-authenticates_example :
    (authenticate_token service 900 with_token secret).1 ≡ accepted ann
unfolding get_user create_api_token insert_api_token display_prefix
create_api_token-authenticates_example =
    create_api_token-authenticates service 10 900 table with_token ann "t1" "laptop" none
      (some (65 ∷ 66 ∷ [])) secret token refl refl refl refl refl

authenticate_token-accepted_example :
    (found : ApiToken) × IsTokenOf service 900 with_token secret ann found
unfolding authenticate_token get_api_token_by_hash get_user display_prefix
authenticate_token-accepted_example =
    authenticate_token-accepted service 900 with_token secret ann refl

abbrev clock : Clock
clock = record { renewing = λ id. 90000001; disabling = λ id. 90000002 }

revalidate-judged_example :
    ((revalidate service 90000000 clock signed_in).users
      ≡ map (row_after service 90000000 clock) (ann ∷ bob ∷ []))
    × ((revalidate service 90000000 clock signed_in).sessions
        ≡ delete
            (λ x.
              is_closed service 90000000 clock (select_all is_active (ann ∷ bob ∷ [])) x
              || ltb x.expires_at 90000000)
            (session ∷ []))
revalidate-judged_example = revalidate-judged service 90000000 clock signed_in refl

-- The session of Ann, begun before the revalidation.
abbrev late : Accounts
late = record table { sessions = new_session service 89000000 "u1" [] cookie (codes "csrf") ∷ [] }

abbrev ann_checked : User
ann_checked = record ann { last_org_check_at = some 90000000 }

revalidate-shuts_out_example : ann_checked.id ≢ bob.id
unfolding get_user authorized revalidate revalidate_users revalidate_user access_token
    list_active_users set_user_org_check disable disable_user delete_user_sessions
    delete_expired_sessions authenticate_session get_session
revalidate-shuts_out_example =
    revalidate-shuts_out service 90000000 clock 90000003 late cookie bob ann_checked refl refl refl
      refl
