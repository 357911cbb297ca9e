-- ===== src/Archive/Confined.antt =====
-- Where the extraction writes.
use pici.Base.{
  String, ◌≡◌, refl, ap, ◌∙◌, inl, inr, true, false, Option, none, some, List, [], ◌∷◌, ◌++◌, arith,
  eq_iff, if◌then◌else◌, Bool-cases, any,
}
use pici.Archive.{
  Place, Name, Node, dir, file, symlink, Disk, Done, place_eq, is_within, lookup, parent, clean,
  Stat, found, missing, broken, lstat, is_child, forget, removed, remove, created, create, enter,
  bind, secure_from, secure_path,
}

-- What lies outside of `dest` is as it was.
abbrev pub IsConfined : (dest : Place) → Disk → Disk → Type 0
IsConfined dest disk disk' = (p : Place) → is_within dest p ≡ false → lookup disk' p ≡ lookup disk p

IsConfined-trans :
    (dest : Place) (a b c : Disk) → IsConfined dest a b → IsConfined dest b c → IsConfined dest a c
IsConfined-trans dest a b c f g = λ p out. g p out ∙ f p out

-- An operation that touches nothing outside of `dest`, and of what it returns `P` holds.
unfoldable pub IsSafe : {A : Type 0} → (dest : Place) → Disk → (A → Type 0) → Done A → Type 0
IsSafe dest disk P (disk', inl e) = IsConfined dest disk disk'
IsSafe dest disk P (disk', inr a) = IsConfined dest disk disk' × P a

abbrev pub Any : {A : Type 0} → A → Type 0
Any a = Unit

pub after :
    {B : Type 0} (dest : Place) (a b : Disk) (Q : B → Type 0) (d : Done B)
    → IsConfined dest a b
    → IsSafe dest b Q d
    → IsSafe dest a Q d
unfolding IsSafe
after dest a b Q (c, inl e) f g = IsConfined-trans dest a b c f g
after dest a b Q (c, inr x) f g = (IsConfined-trans dest a b c f g.0, g.1)

pub bind-IsSafe :
    {A B : Type 0} (dest : Place) (disk : Disk) (P : A → Type 0) (Q : B → Type 0) (d : Done A)
    (k : Disk → A → Done B)
    → IsSafe dest disk P d
    → ((disk' : Disk) (a : A) → P a → IsSafe dest disk' Q (k disk' a))
    → IsSafe dest disk Q (bind d k)
unfolding IsSafe
bind-IsSafe dest disk P Q (disk', inl e) k h go = h
bind-IsSafe dest disk P Q (disk', inr a) k h go =
    after dest disk disk' Q (k disk' a) h.0 (go disk' a h.1)

within_eq : (dest q p : Place) → place_eq q p ≡ true → is_within dest q ≡ is_within dest p
within_eq [] q p e = refl
within_eq (d ∷ ds) [] [] e = refl
within_eq (d ∷ ds) [] (y ∷ ys) e = cc
within_eq (d ∷ ds) (x ∷ xs) [] e = cc
within_eq (d ∷ ds) (x ∷ xs) (y ∷ ys) e = ground (arith, eq_iff x y, within_eq ds xs ys)

apart :
    (dest q p : Place) → is_within dest q ≡ true → is_within dest p ≡ false → place_eq q p ≡ false
apart dest q p i o = elim (Bool-cases (place_eq q p)) [
  | inl e ↦ let same = within_eq dest q p e in ground (arith, same)
  | inr e ↦ e
]

within-snoc :
    (dest cur : Place) (p : String)
    → is_within dest cur ≡ true
    → is_within dest (cur ++ p ∷ []) ≡ true
within-snoc [] cur p h = refl
within-snoc (d ∷ ds) [] p h = cc
within-snoc (d ∷ ds) (c ∷ cur) p h = ground (arith, within-snoc ds cur p)

place_eq-path : (p q : Place) → place_eq p q ≡ true → p ≡ q
place_eq-path [] [] e = refl
place_eq-path [] (q ∷ qs) e = cc
place_eq-path (p ∷ ps) [] e = cc
place_eq-path (p ∷ ps) (q ∷ qs) e =
    λ i. (eq_iff p q).0 (ground arith) i ∷ place_eq-path ps qs (ground arith) i

lookup-forget :
    (q p : Place) (disk : Disk) → place_eq q p ≡ false → lookup (forget q disk) p ≡ lookup disk p
lookup-forget q p [] e = refl
lookup-forget q p ((r, n) ∷ disk) e = elim (Bool-cases (place_eq r q)) [
  | inl own ↦
      let away : place_eq r p ≡ false = rw (place_eq-path r q own) e in
      rw (own, away) (lookup-forget q p disk e)
  | inr other ↦ rw other (ap (λ o. if place_eq r p then some n else o) (lookup-forget q p disk e))
]

removed-IsConfined :
    (dest q : Place) (disk : Disk) (o : Option Node)
    → is_within dest q ≡ true
    → IsConfined dest disk (removed disk q o)
removed-IsConfined dest q disk none i p out = refl
removed-IsConfined dest q disk (some (file c m)) i p out =
    lookup-forget q p disk (apart dest q p i out)
removed-IsConfined dest q disk (some (symlink t)) i p out =
    lookup-forget q p disk (apart dest q p i out)
removed-IsConfined dest q disk (some (dir m)) i p out = elim (Bool-cases (any (is_child q) disk)) [
  | inl e ↦ rw e refl
  | inr e ↦ rw e (lookup-forget q p disk (apart dest q p i out))
]

pub remove-IsConfined :
    (dest q : Place) (disk : Disk) → is_within dest q ≡ true → IsConfined dest disk (remove disk q)
unfolding remove
remove-IsConfined dest q disk i = removed-IsConfined dest q disk (lookup disk q) i

created-IsSafe :
    (dest q : Place) (disk : Disk) (n : Node) (s : Stat) (up : Option Node)
    → is_within dest q ≡ true
    → IsSafe dest disk Any (created disk q n s up)
unfolding IsSafe
created-IsSafe dest q disk n (found node) up i = λ p out. refl
created-IsSafe dest q disk n broken up i = λ p out. refl
created-IsSafe dest q disk n missing none i = λ p out. refl
created-IsSafe dest q disk n missing (some up) i = (λ p out. rw (apart dest q p i out) refl, tt)

pub create-IsSafe :
    (dest q : Place) (disk : Disk) (n : Node)
    → is_within dest q ≡ true
    → IsSafe dest disk Any (create disk q n)
unfolding create
create-IsSafe dest q disk n i =
    created-IsSafe dest q disk n (lstat disk q) (lookup disk (parent q)) i

-- A place is freed, then made.
pub replace-IsSafe :
    (dest q : Place) (disk : Disk) (n : Node)
    → is_within dest q ≡ true
    → IsSafe dest disk Any (create (remove disk q) q n)
replace-IsSafe dest q disk n i =
    after dest disk (remove disk q) Any (create (remove disk q) q n)
      (remove-IsConfined dest q disk i) (create-IsSafe dest q (remove disk q) n i)

-- Nothing is done, or nothing but an error comes of it.
pub still : (dest : Place) (disk : Disk) → IsConfined dest disk disk
still dest disk p out = refl

enter-IsSafe :
    (dest cur : Place) (disk : Disk) (s : Stat)
    → is_within dest cur ≡ true
    → IsSafe dest disk Any (enter disk cur s)
unfolding IsSafe
enter-IsSafe dest cur disk missing i = create-IsSafe dest cur disk (dir 493) i
enter-IsSafe dest cur disk broken i = still dest disk
enter-IsSafe dest cur disk (found (dir m)) i = (still dest disk, tt)
enter-IsSafe dest cur disk (found (file c m)) i = still dest disk
enter-IsSafe dest cur disk (found (symlink t)) i = still dest disk

abbrev pub IsIn : Place → Place → Type 0
IsIn dest p = is_within dest p ≡ true

secure_from-IsSafe :
    (dest cur : Place) (disk : Disk) (parts : List String)
    → is_within dest cur ≡ true
    → IsSafe dest disk (IsIn dest) (secure_from disk cur parts)
unfolding IsSafe
secure_from-IsSafe dest cur disk [] i = (still dest disk, i)
secure_from-IsSafe dest cur disk (p ∷ []) i = (still dest disk, within-snoc dest cur p i)
secure_from-IsSafe dest cur disk (p ∷ q ∷ ps) i =
    let next = cur ++ p ∷ [] in
    let i' = within-snoc dest cur p i in
    bind-IsSafe dest disk Any (IsIn dest) (enter disk next (lstat disk next)) _
      (enter-IsSafe dest next disk (lstat disk next) i')
      (λ disk' done t. secure_from-IsSafe dest next disk' (q ∷ ps) i')

within_self : (dest : Place) → is_within dest dest ≡ true
within_self [] = refl
within_self (d ∷ ds) = ground (arith, eq_iff d d, within_self ds)

pub secure_path-IsSafe :
    (dest : Place) (disk : Disk) (name : Name)
    → IsSafe dest disk (IsIn dest) (secure_path disk dest name)
unfolding secure_path
secure_path-IsSafe dest disk name =
    secure_from-IsSafe dest dest disk (clean false name.parts) (within_self dest)
