-- ===== src/Auth/Everyone.antt =====
-- A revalidation of all users at once.
use pici.Base.{
  ℕ, String, ◌≡◌, refl, sym, ap, ◌∙◌, inl, inr, Bool, true, false, not, ◌&&◌, ◌||◌, Option, none,
  some, List, [], ◌∷◌, map, arith, eq_iff, str_eq, if◌then◌else◌, Bool-cases, any, select,
  select_all, update, delete, order_by,
}
use pici.Base.{insert_by}
use pici.Accounts.{User, Session, Accounts, has_id}
use pici.Auth.{Service, Result, accepted, rejected, Token}
use pici.Auth.Revalidation.{Clock, renewal, is_checked, revalidate_user, revalidate_users}
use pici.Auth.Judged.{
  Judgement, kept, checked, lost, is_lost, judgement, with_token, with_judgement, judged,
  revalidate_user-IsChange,
}

-- PRIMARY KEY (id)
abbrev pub unique_ids : List User → Bool
unique_ids [] = true
unique_ids (u ∷ users) = not (any (has_id u.id) users) && unique_ids users

both : (a b : Bool) → (not a && not b) ≡ not ((a && true) || b)
both a b = ground arith

neither : (a b : Bool) → not b ≡ not ((a && false) || b)
neither a b = ground arith

module _ {ℓ} {A : Type ℓ} where
  pub select_all-select_all :
      (p q : A → Bool) (xs : List A)
      → select_all q (select_all p xs) ≡ select_all (λ x. p x && q x) xs
  select_all-select_all p q [] = refl
  select_all-select_all p q (x ∷ xs) = elim (Bool-cases (p x)) [
    | inl e ↦ rw e (ap (λ ys. if q x then x ∷ ys else ys) (select_all-select_all p q xs))
    | inr e ↦ rw e (select_all-select_all p q xs)
  ]

  delete-delete :
      (b : Bool) (q p : A → Bool) (xs : List A)
      → delete p (if b then delete q xs else xs) ≡ delete (λ x. (q x && b) || p x) xs
  delete-delete true q p xs =
      select_all-select_all (λ x. not (q x)) (λ x. not (p x)) xs
      ∙ (λ i. select_all (λ x. both (q x) (p x) i) xs)
  delete-delete false q p xs = λ i. select_all (λ x. neither (q x) (p x) i) xs

  select_all-all : (xs : List A) → xs ≡ select_all (λ x. true) xs
  select_all-all [] = refl
  select_all-all (x ∷ xs) = ap (λ ys. x ∷ ys) (select_all-all xs)

  pub any-insert_by :
      (le : A → A → Bool) (p : A → Bool) (x : A) (ys : List A)
      → any p (insert_by le x ys) ≡ (p x || any p ys)
  any-insert_by le p x [] = refl
  any-insert_by le p x (y ∷ ys) = ground (arith, any-insert_by le p x ys)

  pub any-order_by :
      (le : A → A → Bool) (p : A → Bool) (xs : List A) → any p (order_by le xs) ≡ any p xs
  any-order_by le p [] = refl
  any-order_by le p (x ∷ xs) =
      any-insert_by le p x (order_by le xs) ∙ ap (λ b. p x || b) (any-order_by le p xs)

  pub any-select_all :
      (p q : A → Bool) (xs : List A) → any p (select_all q xs) ≡ any (λ x. q x && p x) xs
  any-select_all p q [] = refl
  any-select_all p q (x ∷ xs) = ground (arith, any-select_all p q xs)

  pub any-weaken :
      (p q : A → Bool) (xs : List A) → any p xs ≡ false → any (λ x. q x && p x) xs ≡ false
  any-weaken p q [] h = refl
  any-weaken p q (x ∷ xs) h = ground (arith, any-weaken p q xs)

  pub select-insert_by :
      (le : A → A → Bool) (p : A → Bool) (x : A) (ys : List A)
      → (p x && any p ys) ≡ false
      → select p (insert_by le x ys) ≡ (if p x then some x else select p ys)
  select-insert_by le p x [] h = refl
  select-insert_by le p x (y ∷ ys) h = ground (arith, select-insert_by le p x ys)

  pub select-of_none : (p : A → Bool) (xs : List A) → any p xs ≡ false → select p xs ≡ none
  select-of_none p [] h = refl
  select-of_none p (x ∷ xs) h = ground (arith, select-of_none p xs)

pub str_eq_sym : (i j : String) → str_eq i j ≡ str_eq j i
str_eq_sym i j = ground (arith, eq_iff i j, eq_iff j i)

with_judgement-id :
    (now later : ℕ) (j : Judgement) (row : User) → (with_judgement now later j row).id ≡ row.id
with_judgement-id now later kept row = refl
with_judgement-id now later checked row = refl
with_judgement-id now later lost row = refl

with_token-id : (o : Option (Result Token)) (row : User) → (with_token o row).id ≡ row.id
with_token-id none row = refl
with_token-id (some (rejected e)) row = refl
with_token-id (some (accepted t)) row = refl

pub judged-id :
    (s : Service) (now : ℕ) (later : Clock) (u row : User) → (judged s now later u row).id ≡ row.id
judged-id s now later u row =
    elim (Bool-cases (not (str_eq u.provider s.name) || is_checked now u)) [
      | inl e ↦ rw e (with_judgement-id now (later.disabling u.id) (judgement s now later u) row)
      | inr e ↦ rw e (
          with_judgement-id now (later.disabling u.id) (judgement s now later u)
            (with_token (renewal s (later.renewing u.id) u) row)
          ∙ with_token-id (renewal s (later.renewing u.id) u) row)
    ]

abbrev pub judged_as : Service → (now : ℕ) → (later : Clock) → User → Option User → User
judged_as s now later row none = row
judged_as s now later row (some u) = judged s now later u row

-- The row of `users` after the rounds for a list of users.
abbrev pub judged_by : Service → (now : ℕ) → (later : Clock) → List User → User → User
judged_by s now later us row = judged_as s now later row (select (has_id row.id) us)

map-judged_by_none :
    (s : Service) (now : ℕ) (later : Clock) (rows : List User)
    → rows ≡ map (judged_by s now later []) rows
map-judged_by_none s now later [] = refl
map-judged_by_none s now later (r ∷ rows) = ap (λ ys. r ∷ ys) (map-judged_by_none s now later rows)

judged_by-update :
    (s : Service) (now : ℕ) (later : Clock) (u : User) (us rows : List User)
    → any (has_id u.id) us ≡ false
    → map (judged_by s now later us) (update (has_id u.id) (judged s now later u) rows)
      ≡ map (judged_by s now later (u ∷ us)) rows
judged_by-update s now later u us [] h = refl
judged_by-update s now later u us (r ∷ rows) h = elim (Bool-cases (has_id u.id r)) [
  | inl e ↦
      let gone : select (has_id (judged s now later u r).id) us ≡ none =
        ap (λ i. select (has_id i) us) (judged-id s now later u r ∙ (eq_iff r.id u.id).0 e)
        ∙ select-of_none (has_id u.id) us h in
      let found : select (has_id r.id) (u ∷ us) ≡ some u = rw (str_eq_sym u.id r.id, e) refl in
      let head =
        ap (judged_as s now later (judged s now later u r)) gone
        ∙ sym (ap (judged_as s now later r) found) in
      rw e (λ i. head i ∷ judged_by-update s now later u us rows h i)
  | inr e ↦
      let same : select (has_id r.id) us ≡ select (has_id r.id) (u ∷ us) =
        rw (str_eq_sym u.id r.id, e) refl in
      let head = ap (judged_as s now later r) same in
      rw e (λ i. head i ∷ judged_by-update s now later u us rows h i)
]

-- What the rounds leave of the table, for users with distinct ids.
pub revalidate_users-rows :
    (s : Service) (now : ℕ) (later : Clock) (us : List User) (a : Accounts)
    → unique_ids us ≡ true
    → (revalidate_users s now later a us).users ≡ map (judged_by s now later us) a.users
unfolding revalidate_users
revalidate_users-rows s now later [] a h = map-judged_by_none s now later a.users
revalidate_users-rows s now later (u ∷ us) a h =
    revalidate_users-rows s now later us (revalidate_user s now later a u) (ground arith)
    ∙ ap (map (judged_by s now later us)) (revalidate_user-IsChange s now later a u).users
    ∙ judged_by-update s now later u us a.users (ground arith)

-- Whether the owner of a session is one of `us` and lost.
abbrev pub is_closed : Service → (now : ℕ) → (later : Clock) → List User → Session → Bool
is_closed s now later us x =
    any (λ (u : User). str_eq x.user_id u.id && is_lost (judgement s now later u)) us

pub revalidate_users-sessions :
    (s : Service) (now : ℕ) (later : Clock) (us : List User) (a : Accounts)
    → (revalidate_users s now later a us).sessions ≡ delete (is_closed s now later us) a.sessions
unfolding revalidate_users
revalidate_users-sessions s now later [] a = select_all-all a.sessions
revalidate_users-sessions s now later (u ∷ us) a =
    revalidate_users-sessions s now later us (revalidate_user s now later a u)
    ∙ ap (delete (is_closed s now later us)) (revalidate_user-IsChange s now later a u).sessions
    ∙ delete-delete (is_lost (judgement s now later u)) (λ (x : Session). str_eq x.user_id u.id)
        (is_closed s now later us) a.sessions
