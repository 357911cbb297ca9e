-- ===== src/Auth/ShutOut.antt =====
-- Whom a revalidation shuts out.
use pici.Base.{
  ℕ, String, ◌≡◌, refl, sym, ap, ◌∙◌, ◌≢◌, inl, inr, true, false, not, ◌||◌, Option, none, some,
  List, [], ◌∷◌, map, eq_iff, str_eq, Bool-cases, Text, select,
}
use mathlib.Core.Path.{subst}
use mathlib.Core.Option.{some-injective}
use pici.Accounts.{User, Accounts, is_active, has_id, get_user}
use pici.Auth.{Service, authenticate_session}
use pici.Auth.Sessions.{user_in, authenticate_session-accepted}
use pici.Auth.Revalidation.{Clock, is_checked, renewal, revalidate}
use pici.Auth.Judged.{
  Judgement, kept, checked, lost, is_lost, judgement, with_judgement, with_token,
}
use pici.Auth.Everyone.{unique_ids, judged-id}
use pici.Auth.Whole.{row_after, revalidate-judged}
use pici.Auth.LogIn.{select-satisfies}

row_after-id :
    (s : Service) (now : ℕ) (later : Clock) (u : User) → (row_after s now later u).id ≡ u.id
row_after-id s now later u = elim (Bool-cases (is_active u)) [
  | inl e ↦ rw e (judged-id s now later u u)
  | inr e ↦ rw e refl
]

abbrev mapped : (User → User) → Option User → Option User
mapped f none = none
mapped f (some u) = some (f u)

select-map :
    (id : String) (f : User → User) (users : List User)
    → ((u : User) → (f u).id ≡ u.id)
    → select (has_id id) (map f users) ≡ mapped f (select (has_id id) users)
select-map id f [] k = refl
select-map id f (u ∷ users) k = elim (Bool-cases (has_id id u)) [
  | inl e ↦ let e' : has_id id (f u) ≡ true = ap (λ i. str_eq i id) (k u) ∙ e in rw (e, e') refl
  | inr e ↦
      let e' : has_id id (f u) ≡ false = ap (λ i. str_eq i id) (k u) ∙ e in
      rw (e, e') (select-map id f users k)
]

lost-with_judgement :
    (now later : ℕ) (j : Judgement) (row : User)
    → is_lost j ≡ true
    → is_active (with_judgement now later j row) ≡ false
lost-with_judgement now later kept row h = cc
lost-with_judgement now later checked row h = cc
lost-with_judgement now later lost row h = refl

lost-row_after :
    (s : Service) (now : ℕ) (later : Clock) (u : User)
    → is_lost (judgement s now later u) ≡ true
    → is_active (row_after s now later u) ≡ false
lost-row_after s now later u h = elim (Bool-cases (is_active u)) [
  | inr e ↦ rw e e
  | inl e ↦ elim (Bool-cases (not (str_eq u.provider s.name) || is_checked now u)) [
    | inl f ↦
        rw (e, f) (lost-with_judgement now (later.disabling u.id) (judgement s now later u) u h)
    | inr f ↦
        rw (e, f)
          (lost-with_judgement now (later.disabling u.id) (judgement s now later u)
            (with_token (renewal s (later.renewing u.id) u) u) h)
  ]
]

-- Let the ids of the users be distinct. When a revalidation has judged a user of the table lost, whoever
-- is accepted by a cookie with the tables as it leaves them, at whatever time, is not that user.
pub revalidate-shuts_out :
    (s : Service) (now : ℕ) (later : Clock) (moment : ℕ) (a : Accounts) (raw : Text) (u v : User)
    → unique_ids a.users ≡ true
    → get_user a u.id ≡ some u
    → is_lost (judgement s now later u) ≡ true
    → user_in (authenticate_session s moment (revalidate s now later a) raw).1 ≡ some v
    → v.id ≢ u.id
unfolding get_user
revalidate-shuts_out s now later moment a raw u v unique here gone accepted_v same =
    let (session, i) =
      authenticate_session-accepted s moment (revalidate s now later a) raw v accepted_v in
    let own =
      (select-satisfies (has_id session.user_id) (revalidate s now later a).users v i.owner).0 in
    let at : select (has_id v.id) (revalidate s now later a).users ≡ some v =
      subst (λ k. select (has_id k) (revalidate s now later a).users ≡ some v)
        (sym ((eq_iff v.id session.user_id).0 own)) i.owner in
    let there : select (has_id u.id) (map (row_after s now later) a.users)
        ≡ some (row_after s now later u) =
      select-map u.id (row_after s now later) a.users (row_after-id s now later)
      ∙ ap (mapped (row_after s now later)) here in
    let found : some (row_after s now later u) ≡ some v =
      sym there
      ∙ sym (ap (select (has_id u.id)) (revalidate-judged s now later a unique).0)
      ∙ sym (ap (λ k. select (has_id k) (revalidate s now later a).users) same)
      ∙ at in
    let off : is_active v ≡ false =
      sym (ap is_active (some-injective (row_after s now later u) v found))
      ∙ lost-row_after s now later u gone in
    cc (i.active, off)
