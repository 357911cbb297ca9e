-- ===== src/Auth/LogIn.antt =====
-- Service.Login: the user that it leaves in the table.
use pici.Base.{
  ℕ, ◌+◌, ◌<◌, String, ◌≡◌, refl, sym, ap, inl, inr, Bool, true, false, Option, none, some, List,
  [], ◌∷◌, ◌++◌, arith, eq_iff, str_eq, Bool-cases, Option-cases, any, Text, select, update,
}
use mathlib.Core.Path.{subst}
use mathlib.Core.Option.{some-injective}
use pici.Accounts.{
  User, Session, Accounts, is_active, has_id, is_identity, new_user, renewed_user, get_user,
  read_again, upsert_row, upsert_user,
}
use pici.Auth.{
  Result, accepted, rejected, access_denied, other, Identity, Service, authorized, user_of,
  log_in_allowed, lacks_scope, log_in_as, log_in, slid, create_session, authenticate_session,
}
use pici.Auth.Trips.{accepted-injective, select-snoc, create_session-authenticates}
use pici.Auth.Everyone.{unique_ids}

-- The user stands in the table, active and of the provider.
pub record IsSignedUp (a : Accounts) (provider : String) (user : User) : Type 0 where
  pub found : get_user a user.id ≡ some user
  pub active : is_active user ≡ true
  pub same_provider : str_eq user.provider provider ≡ true

pub select-satisfies :
    (p : User → Bool) (users : List User) (u : User)
    → select p users ≡ some u
    → (p u ≡ true) × (any (has_id u.id) users ≡ true)
select-satisfies p [] u h = cc
select-satisfies p (v ∷ users) u h = elim (Bool-cases (p v)) [
  | inl e ↦
      let same : some v ≡ some u = rw e at h in
      rw (sym (some-injective v u same)) (e, ground (arith, eq_iff v.id v.id))
  | inr e ↦ let ih = select-satisfies p users u (rw e at h) in (ih.0, ground (arith, ih.1))
]

select-updated :
    (p : User → Bool) (f : User → User) (users : List User) (old : User)
    → ((u : User) → (f u).id ≡ u.id)
    → unique_ids users ≡ true
    → select p users ≡ some old
    → select (has_id old.id) (update p f users) ≡ some (f old)
select-updated p f [] old k h e = cc
select-updated p f (u ∷ users) old k h e = elim (Bool-cases (p u)) [
  | inl own ↦
      let same : u ≡ old = some-injective u old (rw own at e) in
      let here : str_eq (f u).id u.id ≡ true = rw (k u) ((eq_iff u.id u.id).1 refl) in
      rw (sym same, own, here) refl
  | inr other_row ↦
      let rest : select p users ≡ some old = rw other_row at e in
      let there = (select-satisfies p users old rest).1 in
      let away : str_eq u.id old.id ≡ false = elim (Bool-cases (str_eq u.id old.id)) [
        | inl twin ↦
            let again : any (has_id u.id) users ≡ true =
              subst (λ i. any (has_id i) users ≡ true) (sym ((eq_iff u.id old.id).0 twin)) there in
            ground arith
        | inr f ↦ f
      ] in
      rw (other_row, away) (select-updated p f users old k (ground arith) rest)
]

read_again-found :
    (a b : Accounts) (id : String) (row user : User)
    → get_user a id ≡ some row
    → read_again a id ≡ some (b, user)
    → (b ≡ a) × (user ≡ row)
read_again-found a b id row user g e =
    let same : some (a, row) ≡ some (b, user) = rw (read_again, g) at e in
    let pair = some-injective (a, row) (b, user) same in
    (sym (ap (λ x. x.0) pair), sym (ap (λ x. x.1) pair))

upsert_row-IsSignedUp :
    (a b : Accounts) (new user : User) (o : Option User)
    → unique_ids a.users ≡ true
    → is_active new ≡ true
    → select (is_identity new) a.users ≡ o
    → upsert_row a new o ≡ some (b, user)
    → IsSignedUp b new.provider user
unfolding get_user
upsert_row-IsSignedUp a b new user (some old) u n e h =
    let sat = select-satisfies (is_identity new) a.users old e in
    let row = renewed_user new old in
    let a' : Accounts = record a { users = update (is_identity new) (renewed_user new) a.users } in
    let f : get_user a' old.id ≡ some row =
      select-updated (is_identity new) (renewed_user new) a.users old (λ v. refl) u e in
    let (is_b, is_row) = read_again-found a' b old.id row user f h in
    rw (is_b, is_row) (record { found = f; active = refl; same_provider = ground (arith, sat.0) })
upsert_row-IsSignedUp a b new user none u n e h = elim (Bool-cases (any (has_id new.id) a.users)) [
  | inl e' ↦ let clash : none ≡ some (b, user) = rw e' at h in cc
  | inr e' ↦
      let a' : Accounts = record a { users = a.users ++ new ∷ [] } in
      let f : get_user a' new.id ≡ some new =
        select-snoc (has_id new.id) (has_id new.id) new a.users e' (λ v x. x)
          ((eq_iff new.id new.id).1 refl) in
      let (is_b, is_row) = read_again-found a' b new.id new user f (rw e' at h) in
      rw (is_b, is_row)
        (record {
          found = f;
          active = n;
          same_provider = (eq_iff new.provider new.provider).1 refl;
        })
]

allowed-IsSignedUp :
    (s : Service) (new_id : String) (now : ℕ) (a b : Accounts) (i : Identity) (r : Result Bool)
    (user : User)
    → unique_ids a.users ≡ true
    → log_in_allowed s new_id now a i r ≡ accepted (b, user)
    → IsSignedUp b s.name user
unfolding upsert_user
allowed-IsSignedUp s new_id now a b i (rejected e) user u h = cc
allowed-IsSignedUp s new_id now a b i (accepted false) user u h = cc
allowed-IsSignedUp s new_id now a b i (accepted true) user u h =
    let new = new_user new_id now (user_of s now i) in
    let o = select (is_identity new) a.users in
    elim (Option-cases (upsert_row a new o)) [
      | inl e ↦ let clash : rejected other ≡ accepted (b, user) = rw e at h in cc
      | inr ((b', user'), e) ↦
          let pair : (b', user') ≡ (b, user) = accepted-injective _ _ (rw e at h) in
          rw (sym (ap (λ x. x.0) pair), sym (ap (λ x. x.1) pair))
            (upsert_row-IsSignedUp a b' new user' o u refl refl e)
    ]

identity-IsSignedUp :
    (s : Service) (new_id : String) (now : ℕ) (a b : Accounts) (r : Result Identity) (user : User)
    → unique_ids a.users ≡ true
    → log_in_as s new_id now a r ≡ accepted (b, user)
    → IsSignedUp b s.name user
identity-IsSignedUp s new_id now a b (rejected e) user u h = cc
identity-IsSignedUp s new_id now a b (accepted i) user u h = elim (Bool-cases (lacks_scope s i)) [
  | inl e ↦ let clash : rejected access_denied ≡ accepted (b, user) = rw e at h in cc
  | inr e ↦
      allowed-IsSignedUp s new_id now a b i (authorized s i.login i.token.access_token) user u
        (rw e at h)
]

-- Let the ids of the users be distinct. A user whom Login accepts, new or known, even one who had been
-- disabled, gets in with the cookie of a session that is then created for them, until it expires.
pub log_in-authenticates :
    (s : Service) (new_id : String) (now later : ℕ) (a b c : Accounts)
    (code nonce verifier : String) (user : User) (user_agent : List ℕ)
    (random random_csrf : Option Text) (raw : Text) (session : Session)
    → unique_ids a.users ≡ true
    → log_in s new_id now a code nonce verifier ≡ accepted (b, user)
    → create_session s now b user.id user_agent random random_csrf ≡ accepted (c, (raw, session))
    → later < now + s.session_ttl
    → (authenticate_session s later c raw).1 ≡ accepted (user, slid s later session)
unfolding log_in
log_in-authenticates s new_id now later a b c code nonce verifier user user_agent random random_csrf
      raw session u h made live =
    let i =
      identity-IsSignedUp s new_id now a b (s.provider.exchange code nonce verifier) user u h in
    create_session-authenticates s now later b c user user_agent random random_csrf raw session
      i.found i.active i.same_provider made live
