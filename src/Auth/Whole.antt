-- ===== src/Auth/Whole.antt =====
-- Service.Revalidate, compared with a judgement of each user by itself.
use pici.Base.{
  ℕ, String, ◌≡◌, refl, ap, ◌∙◌, inl, inr, Bool, true, false, not, ◌&&◌, ◌||◌, none, some, List, [],
  ◌∷◌, map, arith, eq_iff, ltb, str_eq, if◌then◌else◌, Bool-cases, any, All, select, select_all,
  delete, order_by, str_leb,
}
use mathlib.Core.Path.{subst}
use pici.Base.{insert_by}
use pici.Accounts.{
  User, Session, Accounts, is_active, has_id, list_active_users, delete_expired_sessions,
}
use pici.Auth.{Service}
use pici.Auth.Revalidation.{Clock, revalidate}
use pici.Auth.Judged.{is_lost, judgement, judged}
use pici.Auth.Everyone.{
  unique_ids, select_all-select_all, any-insert_by, any-order_by, any-select_all, any-weaken,
  select-insert_by, select-of_none, str_eq_sym, judged_as, judged_by, is_closed,
  revalidate_users-rows, revalidate_users-sessions,
}

abbrev le_login : User → User → Bool
le_login u v = str_leb u.login v.login

unique_ids-insert_by :
    (u : User) (users : List User)
    → any (has_id u.id) users ≡ false
    → unique_ids users ≡ true
    → unique_ids (insert_by le_login u users) ≡ true
unique_ids-insert_by u [] n h = refl
unique_ids-insert_by u (v ∷ users) n h = ground (
  arith,
  str_eq_sym u.id v.id,
  any-insert_by le_login (has_id v.id) u users,
  unique_ids-insert_by u users,
)

unique_ids-order_by :
    (users : List User) → unique_ids users ≡ true → unique_ids (order_by le_login users) ≡ true
unique_ids-order_by [] h = refl
unique_ids-order_by (u ∷ users) h =
    unique_ids-insert_by u (order_by le_login users)
      (any-order_by le_login (has_id u.id) users ∙ ground arith)
      (unique_ids-order_by users (ground arith))

unique_ids-select_all :
    (q : User → Bool) (users : List User)
    → unique_ids users ≡ true
    → unique_ids (select_all q users) ≡ true
unique_ids-select_all q [] h = refl
unique_ids-select_all q (u ∷ users) h = ground (
  arith,
  any-select_all (has_id u.id) q users,
  any-weaken (has_id u.id) q users,
  unique_ids-select_all q users,
)

own-once :
    (id : String) (u : User) (users : List User)
    → unique_ids (u ∷ users) ≡ true
    → (has_id id u && any (has_id id) (order_by le_login users)) ≡ false
own-once id u users h = elim (Bool-cases (has_id id u)) [
  | inl e ↦
      let n : any (has_id id) users ≡ false =
        subst (λ j. any (has_id j) users ≡ false) ((eq_iff u.id id).0 e) (ground arith) in
      ground (arith, any-order_by le_login (has_id id) users, n)
  | inr e ↦ ground arith
]

-- A user found by the id in the sorted list of the users who satisfy `q`.
select-order_by :
    (id : String) (users : List User)
    → unique_ids users ≡ true
    → select (has_id id) (order_by le_login users) ≡ select (has_id id) users
select-order_by id [] h = refl
select-order_by id (u ∷ users) h =
    select-insert_by le_login (has_id id) u (order_by le_login users) (own-once id u users h)
    ∙ ap (λ o. if has_id id u then some u else o) (select-order_by id users (ground arith))

-- Each row is found by its own id; `q` decides whether it is selected.
abbrev AreSelected : (User → Bool) → List User → List User → Type 0
AreSelected q all_rows rows =
    All (λ u. select (has_id u.id) (select_all q all_rows) ≡ (if q u then some u else none)) rows

AreSelected-cons :
    (q : User → Bool) (u : User) (all_rows rows : List User)
    → any (has_id u.id) rows ≡ false
    → AreSelected q all_rows rows
    → AreSelected q (u ∷ all_rows) rows
AreSelected-cons q u all_rows [] n h = tt
AreSelected-cons q u all_rows (r ∷ rows) n h = (
  ground (arith, str_eq_sym u.id r.id, h.0),
  AreSelected-cons q u all_rows rows (ground arith) h.1,
)

AreSelected-self :
    (q : User → Bool) (users : List User) → unique_ids users ≡ true → AreSelected q users users
AreSelected-self q [] h = tt
AreSelected-self q (u ∷ users) h = (
  ground (
    arith,
    eq_iff u.id u.id,
    select-of_none (has_id u.id) (select_all q users),
    any-select_all (has_id u.id) q users,
    any-weaken (has_id u.id) q users,
  ),
  AreSelected-cons q u users users (ground arith) (AreSelected-self q users (ground arith)),
)

-- The row of a user after a revalidation.
abbrev pub row_after : Service → (now : ℕ) → (later : Clock) → User → User
row_after s now later u = if is_active u then judged s now later u u else u

de_morgan : (a b : Bool) → (not a && not b) ≡ not (a || b)
de_morgan a b = ground arith

judged_as-active :
    (s : Service) (now : ℕ) (later : Clock) (u : User) (b : Bool)
    → judged_as s now later u (if b then some u else none)
      ≡ (if b then judged s now later u u else u)
judged_as-active s now later u true = refl
judged_as-active s now later u false = refl

judged_by-selected :
    (s : Service) (now : ℕ) (later : Clock) (all_rows rows : List User)
    → unique_ids all_rows ≡ true
    → AreSelected is_active all_rows rows
    → map (judged_by s now later (order_by le_login (select_all is_active all_rows))) rows
      ≡ map (row_after s now later) rows
judged_by-selected s now later all_rows [] h f = refl
judged_by-selected s now later all_rows (r ∷ rows) h f =
    let found =
      select-order_by r.id (select_all is_active all_rows)
        (unique_ids-select_all is_active all_rows h)
      ∙ f.0 in
    let head : judged_by s now later (order_by le_login (select_all is_active all_rows)) r
        ≡ row_after s now later r =
      ap (judged_as s now later r) found ∙ judged_as-active s now later r (is_active r) in
    λ i. head i ∷ judged_by-selected s now later all_rows rows h f.1 i

left_alone :
    (s : Service) (now : ℕ) (later : Clock) (users : List User) (x : Session)
    → (not (is_closed s now later (order_by le_login users) x) && not (ltb x.expires_at now))
      ≡ not (is_closed s now later users x || ltb x.expires_at now)
left_alone s now later users x =
    rw
      (any-order_by le_login
        (λ (u : User). str_eq x.user_id u.id && is_lost (judgement s now later u)) users)
      (de_morgan (is_closed s now later users x) (ltb x.expires_at now))

-- Let the ids of the users be distinct. A revalidation changes each row as if its user were the only
-- one: a disabled user stays as they are; an active one is disabled if they are of another provider,
-- or if, a day after their last check, the provider rejects their tokens for good or no longer vouches
-- for them; else they keep their access, with the new tokens and the new check, if there are any. Of
-- the sessions go those that have expired and those of the users who are disabled by it.
pub revalidate-judged :
    (s : Service) (now : ℕ) (later : Clock) (a : Accounts)
    → unique_ids a.users ≡ true
    → ((revalidate s now later a).users ≡ map (row_after s now later) a.users)
      × ((revalidate s now later a).sessions
          ≡ delete
              (λ x. is_closed s now later (select_all is_active a.users) x || ltb x.expires_at now)
              a.sessions)
unfolding revalidate list_active_users delete_expired_sessions
revalidate-judged s now later a h =
    let us = order_by le_login (select_all is_active a.users) in
    let u =
      unique_ids-order_by (select_all is_active a.users)
        (unique_ids-select_all is_active a.users h) in
    (
      revalidate_users-rows s now later us a u
          ∙ judged_by-selected s now later a.users a.users h (AreSelected-self is_active a.users h),
      ap (delete (λ (x : Session). ltb x.expires_at now))
            (revalidate_users-sessions s now later us a)
          ∙ select_all-select_all (λ x. not (is_closed s now later us x))
              (λ (x : Session). not (ltb x.expires_at now)) a.sessions
          ∙ (λ i.
              select_all (λ x. left_alone s now later (select_all is_active a.users) x i)
                a.sessions),
    )
