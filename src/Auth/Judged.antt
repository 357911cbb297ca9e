-- ===== src/Auth/Judged.antt =====
-- What a revalidation does, user by user.
use pici.Base.{
  ℕ, ◌≡◌, refl, sym, ap, ◌∙◌, inl, inr, Bool, true, false, not, ◌||◌, Option, none, some, List, [],
  ◌∷◌, arith, str_eq, if◌then◌else◌, Bool-cases, update, delete,
}
use pici.Accounts.{
  User, Session, Accounts, has_id, update_user_oauth_token, set_user_org_check, disable_user,
  delete_user_sessions,
}
use pici.Auth.{
  AuthError, unauthorized, access_denied, token_invalid, provider_unavailable, other, Result,
  accepted, rejected, Token, Service, authorized,
}
use pici.Auth.Revalidation.{
  Clock, renewal, renewed, disable, is_token_invalid, after_authorized, after_token, is_checked,
  revalidate_user,
}

-- What is to become of an active user.
pub data Judgement : Type 0 where
  kept checked lost : Judgement

abbrev pub is_lost : Judgement → Bool
is_lost lost = true
is_lost kept = false
is_lost checked = false

abbrev pub judged_error : AuthError → Judgement
judged_error e = if is_token_invalid e then lost else kept

abbrev pub judged_access : Result Bool → Judgement
judged_access (accepted allowed) = if allowed then checked else lost
judged_access (rejected e) = judged_error e

abbrev pub judged_token : Service → User → Option (Result Token) → Judgement
judged_token s u none = judged_access (authorized s u.login u.oauth_access_token)
judged_token s u (some (rejected e)) = judged_error e
judged_token s u (some (accepted t)) = judged_access (authorized s u.login t.access_token)

-- A user of another provider is lost, one who was checked within a day is kept, and for the others
-- the provider says.
abbrev pub judgement : Service → (now : ℕ) → (later : Clock) → User → Judgement
judgement s now later u =
    if not (str_eq u.provider s.name)
    then lost
    else if is_checked now u
    then kept
    else judged_token s u (renewal s (later.renewing u.id) u)

abbrev pub with_token : Option (Result Token) → User → User
with_token (some (accepted t)) row = record row {
  oauth_access_token = t.access_token;
  oauth_refresh_token = t.refresh_token;
  oauth_expires_at = t.expires_at;
}
with_token (some (rejected e)) row = row
with_token none row = row

abbrev pub with_judgement : (now later : ℕ) → Judgement → User → User
with_judgement now later kept row = row
with_judgement now later checked row = record row { last_org_check_at = some now }
with_judgement now later lost row = record row { disabled_at = some later }

-- The row of an active user after the revalidation.
abbrev pub judged : Service → (now : ℕ) → (later : Clock) → User → User → User
judged s now later u =
    if not (str_eq u.provider s.name) || is_checked now u
    then with_judgement now (later.disabling u.id) (judgement s now later u)
    else λ row.
        with_judgement now (later.disabling u.id) (judgement s now later u)
          (with_token (renewal s (later.renewing u.id) u) row)

-- A round that updates the rows of its user by `f`, and ends the user's sessions if `gone`.
pub record IsChange (a : Accounts) (u : User) (f : User → User) (gone : Bool) (b : Accounts)
    : Type 0 where
  pub users : b.users ≡ update (has_id u.id) f a.users
  pub sessions :
      b.sessions
      ≡ (if gone then delete (λ (x : Session). str_eq x.user_id u.id) a.sessions else a.sessions)

module _ {ℓ} {A : Type ℓ} where
  update-same : (p : A → Bool) (xs : List A) → update p (λ x. x) xs ≡ xs
  update-same p [] = refl
  update-same p (x ∷ xs) = ground (arith, update-same p xs)

  update-update :
      (p : A → Bool) (f g : A → A) (xs : List A)
      → ((x : A) → p (f x) ≡ p x)
      → update p g (update p f xs) ≡ update p (λ x. g (f x)) xs
  update-update p f g [] k = refl
  update-update p f g (x ∷ xs) k = elim (Bool-cases (p x)) [
    | inl e ↦ rw (e, k x, e) (ap (λ r. g (f x) ∷ r) (update-update p f g xs k))
    | inr e ↦ rw (e, e) (ap (λ r. x ∷ r) (update-update p f g xs k))
  ]

kept-IsChange : (a : Accounts) (u : User) → IsChange a u (λ row. row) false a
kept-IsChange a u = record { users = sym (update-same (has_id u.id) a.users); sessions = refl }

disable-IsChange :
    (a : Accounts) (u : User) (later : ℕ)
    → IsChange a u (λ row. record row { disabled_at = some later }) true (disable a u later)
unfolding disable disable_user delete_user_sessions
disable-IsChange a u later = record { users = refl; sessions = refl }

error-IsChange :
    (now later : ℕ) (a : Accounts) (u : User) (e : AuthError)
    → IsChange a u
        (with_judgement now later (judged_error e))
        (is_lost (judged_error e))
        (if is_token_invalid e then disable a u later else a)
error-IsChange now later a u unauthorized = kept-IsChange a u
error-IsChange now later a u access_denied = kept-IsChange a u
error-IsChange now later a u token_invalid = disable-IsChange a u later
error-IsChange now later a u provider_unavailable = kept-IsChange a u
error-IsChange now later a u other = kept-IsChange a u

after_authorized-IsChange :
    (now later : ℕ) (a : Accounts) (u : User) (r : Result Bool)
    → IsChange a u
        (with_judgement now later (judged_access r))
        (is_lost (judged_access r))
        (after_authorized now later u a r)
unfolding set_user_org_check
after_authorized-IsChange now later a u (accepted true) = record { users = refl; sessions = refl }
after_authorized-IsChange now later a u (accepted false) = disable-IsChange a u later
after_authorized-IsChange now later a u (rejected e) = error-IsChange now later a u e

after_token-IsChange :
    (s : Service) (now later : ℕ) (a : Accounts) (u : User) (o : Option (Result Token))
    → IsChange a u
        (λ row. with_judgement now later (judged_token s u o) (with_token o row))
        (is_lost (judged_token s u o))
        (after_token s now later u (renewed a u o).0 (renewed a u o).1)
unfolding update_user_oauth_token
after_token-IsChange s now later a u none =
    after_authorized-IsChange now later a u (authorized s u.login u.oauth_access_token)
after_token-IsChange s now later a u (some (rejected e)) = error-IsChange now later a u e
after_token-IsChange s now later a u (some (accepted t)) =
    let a' = update_user_oauth_token a u.id t.access_token t.refresh_token t.expires_at in
    let c = after_authorized-IsChange now later a' u (authorized s u.login t.access_token) in
    record {
      users =
          c.users
          ∙ update-update (has_id u.id) (with_token (some (accepted t))) _ a.users (λ x. refl);
      sessions = c.sessions;
    }

pub revalidate_user-IsChange :
    (s : Service) (now : ℕ) (later : Clock) (a : Accounts) (u : User)
    → IsChange a u
        (judged s now later u)
        (is_lost (judgement s now later u))
        (revalidate_user s now later a u)
unfolding revalidate_user
revalidate_user-IsChange s now later a u = elim (Bool-cases (str_eq u.provider s.name)) [
  | inr e ↦ rw e (disable-IsChange a u (later.disabling u.id))
  | inl e ↦ elim (Bool-cases (is_checked now u)) [
    | inl f ↦ rw (e, f) (kept-IsChange a u)
    | inr f ↦
        rw (e, f)
          (after_token-IsChange s now (later.disabling u.id) a u
            (renewal s (later.renewing u.id) u))
  ]
]
