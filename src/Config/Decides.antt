-- ===== src/Config/Decides.antt =====
-- What the triggers of a workflow decide.
use pici.Base.{
  String, ◌≡◌, refl, sym, ap, ◌∙◌, ◌≢◌, inl, inr, false, some, eq_iff, str_eq, Bool-cases,
}
use pici.Config.{RefFilter, PullRequestConfig, On}
use pici.Config.Parse.{
  Value, Fields, field, ok, parse_ref_filter, parse_pull_request, schedule_text, set_event,
  set_events,
}
use pici.Config.Accepts.{>>=-eq-ok}

-- What an event of a mapping changes.
data Update : Type 0 where
  push_update manual_update : RefFilter → Update
  pull_request_update : PullRequestConfig → Update
  schedule_update : String → Update

abbrev apply_update : Update → On → On
apply_update (push_update cfg) o = record o { push = some cfg }
apply_update (manual_update cfg) o = record o { manual = some cfg }
apply_update (pull_request_update cfg) o = record o { pull_request = some cfg }
apply_update (schedule_update s) o = record o { schedule = s }

abbrev key_of : Update → String
key_of (push_update cfg) = "push"
key_of (manual_update cfg) = "manual"
key_of (pull_request_update cfg) = "pull_request"
key_of (schedule_update s) = "schedule"

-- The value of an event decodes to this change.
abbrev Decodes : Value → Update → Type 0
Decodes v (push_update cfg) = parse_ref_filter v ≡ ok cfg
Decodes v (manual_update cfg) = parse_ref_filter v ≡ ok cfg
Decodes v (pull_request_update cfg) = parse_pull_request v ≡ ok cfg
Decodes v (schedule_update s) = schedule_text v ≡ ok s

set_event_cases :
    (o : On) (a : String) (v : Value) (o1 : On)
    → set_event o a v false ≡ ok o1
    → (u : Update) × ((a ≡ key_of u) × Decodes v u) × (o1 ≡ apply_update u o)
unfolding set_event
set_event_cases o a v o1 h = elim (Bool-cases (str_eq a "push")) [
  | inl e ↦
      let (cfg, d, q) = >>=-eq-ok (parse_ref_filter v) _ (rw (e, set_event) at h) in
      (push_update cfg, ((eq_iff a "push").0 e, d), cc q)
  | inr e1 ↦ elim (Bool-cases (str_eq a "manual")) [
    | inl e ↦
        let (cfg, d, q) = >>=-eq-ok (parse_ref_filter v) _ (rw (e1, e, set_event) at h) in
        (manual_update cfg, ((eq_iff a "manual").0 e, d), cc q)
    | inr e2 ↦ elim (Bool-cases (str_eq a "pull_request")) [
      | inl e ↦
          let (cfg, d, q) = >>=-eq-ok (parse_pull_request v) _ (rw (e1, e2, e, set_event) at h) in
          (pull_request_update cfg, ((eq_iff a "pull_request").0 e, d), cc q)
      | inr e3 ↦ elim (Bool-cases (str_eq a "schedule")) [
        | inl e ↦
            let (s, d, q) = >>=-eq-ok (schedule_text v) _ (rw (e1, e2, e3, e, set_event) at h) in
            (schedule_update s, ((eq_iff a "schedule").0 e, d), cc q)
        | inr e ↦ cc (rw (e1, e2, e3, e, set_event) at h)
      ]
    ]
  ]
]

set_event-apply :
    (o : On) (a : String) (v : Value) (u : Update)
    → (a ≡ key_of u) × Decodes v u
    → set_event o a v false ≡ ok (apply_update u o)
unfolding set_event
set_event-apply o a v (push_update cfg) h = rw h.0 (rw h.1)
set_event-apply o a v (manual_update cfg) h = rw h.0 (rw h.1)
set_event-apply o a v (pull_request_update cfg) h = rw h.0 (rw h.1)
set_event-apply o a v (schedule_update s) h = rw h.0 (rw h.1)

event_update_ne :
    (a b : String) (v w : Value) (u t : Update)
    → str_eq a b ≡ false
    → (a ≡ key_of u) × Decodes v u
    → (b ≡ key_of t) × Decodes w t
    → key_of u ≢ key_of t
event_update_ne a b v w u t n h k e = cc (n, (eq_iff a b).1 (h.0 ∙ e ∙ sym k.0))

apply_update_comm :
    (u t : Update) (o : On)
    → key_of u ≢ key_of t
    → apply_update u (apply_update t o) ≡ apply_update t (apply_update u o)
apply_update_comm (push_update c) (push_update d) o n = absurd (n refl)
apply_update_comm (manual_update c) (manual_update d) o n = absurd (n refl)
apply_update_comm (pull_request_update c) (pull_request_update d) o n = absurd (n refl)
apply_update_comm (schedule_update c) (schedule_update d) o n = absurd (n refl)
apply_update_comm _ _ o n = refl

set_event_swap :
    (o o1 o2 : On) (a b : String) (v w : Value)
    → str_eq a b ≡ false
    → set_event o a v false ≡ ok o1
    → set_event o1 b w false ≡ ok o2
    → (o3 : On) × (set_event o b w false ≡ ok o3) × (set_event o3 a v false ≡ ok o2)
unfolding set_event
set_event_swap o o1 o2 a b v w n e f =
    let (u, decoded, same) = set_event_cases o a v o1 e in
    let (t, decoded', same') = set_event_cases o1 b w o2 f in
    let other = event_update_ne a b v w u t n decoded decoded' in
    (
      apply_update t o,
      set_event-apply o b w t decoded',
      set_event-apply (apply_update t o) a v u decoded
          ∙ ap ok (apply_update_comm u t o other ∙ ap (apply_update t) (sym same) ∙ sym same'),
    )

-- The order in which a Go map is walked does not matter: two neighbouring events of different names
-- in an `on` mapping may change places, and the mapping is decoded to the same filters or refused
-- either way.
pub set_events_swap :
    (o o' : On) (a b : String) (v w : Value) (rest : Fields)
    → str_eq a b ≡ false
    → set_events o (field a v (field b w rest)) ≡ ok o'
    → set_events o (field b w (field a v rest)) ≡ ok o'
unfolding set_events
set_events_swap o o' a b v w rest n h =
    let (o1, first, more) = >>=-eq-ok (set_event o a v false) _ h in
    let (o2, second, tail) = >>=-eq-ok (set_event o1 b w false) _ more in
    let (o3, first', second') = set_event_swap o o1 o2 a b v w n first second in
    rw (first', second') tail
