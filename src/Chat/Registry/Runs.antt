-- ===== src/Chat/Registry/Runs.antt =====
-- Whole runs of the two tables.
use mathlib.Core.Option.{some-injective, none-ne-some}
use distributed_instant_mess.Base.{
  ℕ, ◌≡◌, ◌≢◌, refl, sym, ap, ◌∙◌, ◌⊎◌, inl, inr, Bool, true, false, Option, some, List, [], ◌∷◌,
  ◌==◌, Bool-cases, Option-cases, ==_iff,
}
use distributed_instant_mess.Base.Table.{assign, assign-same, assign-other}
use distributed_instant_mess.Chat.Registry.{
  Registry, init, handle_accept, check_valid, clear_session, kick_user, kick_found, bind, login, Op,
  accepts, clears, kicks, logs_in, step, run,
}
use distributed_instant_mess.Chat.Registry.Consistent.{
  IsConsistent, Clears-cases, Clears-IsConsistent, clear_session-Clears,
}

-- A new session has an id that no user has. A session logs in once, while it is in the table.
abbrev pub Allowed : Registry → Op → Type 0
Allowed r (accepts id) = (uid : ℕ) → r.user_session uid ≢ some id
Allowed r (logs_in here uid id) =
    (r.sessions id ≡ true) × ((other : ℕ) → r.user_session other ≢ some id)
Allowed r _ = Unit {0}

pub data AllAllowed : Registry → List Op → Type 0 where
  nil : {r : Registry} → AllAllowed r []
  cons :
      {r : Registry} {op : Op} {ops : List Op}
      → Allowed r op
      → AllAllowed (step r op) ops
      → AllAllowed r (op ∷ ops)

accept-IsConsistent :
    (r : Registry) (id : ℕ)
    → IsConsistent r
    → ((uid : ℕ) → r.user_session uid ≢ some id)
    → IsConsistent (handle_accept r id)
unfolding handle_accept
accept-IsConsistent r id c fresh = record {
  alive = λ uid other h.
      assign-other r.sessions id true other (λ e. fresh uid (h ∙ ap some e)) ∙ c.alive uid other h;
  owner = λ uid other h.
      assign-other r.uid_of id 0 other (λ e. fresh uid (h ∙ ap some e)) ∙ c.owner uid other h;
}

kick-IsConsistent : (r : Registry) (uid : ℕ) → IsConsistent r → IsConsistent (kick_user r uid)
unfolding kick_user
kick-IsConsistent r uid c = elim (Option-cases (r.user_session uid)) [
  | inl nobody ↦ rw (nobody, kick_found) c
  | inr (old, e) ↦
      rw (e, kick_found)
        (Clears-IsConsistent r old (clear_session r old) c (clear_session-Clears r old c))
]

pub bound-cases :
    (users : ℕ → Option ℕ) (uid id u s : ℕ)
    → assign users uid (some id) u ≡ some s
    → ((u ≡ uid) × (s ≡ id)) ⊎ (users u ≡ some s)
bound-cases users uid id u s h = elim (Bool-cases (u == uid)) [
  | inl own ↦ inl ((==_iff u uid).0 own, sym (some-injective id s (rw own at h)))
  | inr other ↦ inr (rw other at h)
]

bind-IsConsistent :
    (r : Registry) (uid id : ℕ)
    → IsConsistent r
    → r.sessions id ≡ true
    → ((other : ℕ) → r.user_session other ≢ some id)
    → IsConsistent (bind r uid id)
unfolding bind
bind-IsConsistent r uid id c there free = record {
  alive = λ u s h. elim (bound-cases r.user_session uid id u s h) [
    | inl (own, e) ↦ ap r.sessions e ∙ there
    | inr old ↦ c.alive u s old
  ];
  owner = λ u s h. elim (bound-cases r.user_session uid id u s h) [
    | inl (own, e) ↦ ap (assign r.uid_of id uid) e ∙ assign-same r.uid_of id uid ∙ sym own
    | inr old ↦ assign-other r.uid_of id uid s (λ e. free u (old ∙ ap some e)) ∙ c.owner u s old
  ];
}

-- What a kick leaves of a session that no user has.
kick-free :
    (r : Registry) (uid id : ℕ)
    → IsConsistent r
    → ((other : ℕ) → r.user_session other ≢ some id)
    → ((kick_user r uid).sessions id ≡ r.sessions id)
      × ((other : ℕ) → (kick_user r uid).user_session other ≢ some id)
unfolding kick_user
kick-free r uid id c free = elim (Option-cases (r.user_session uid)) [
  | inl nobody ↦ rw (nobody, kick_found) (refl, free)
  | inr (old, e) ↦
      let d = clear_session-Clears r old c in
      rw (e, kick_found)
        (
          d.others_stay id (λ same. free uid (e ∙ ap some (sym same))),
          λ other h. elim (Clears-cases d other) [
            | inl nobody ↦ none-ne-some id (sym nobody ∙ h)
            | inr (same, ne) ↦ free other (sym same ∙ h)
          ],
        )
]

login-IsConsistent :
    (r : Registry) (here : Bool) (uid id : ℕ)
    → IsConsistent r
    → r.sessions id ≡ true
    → ((other : ℕ) → r.user_session other ≢ some id)
    → IsConsistent (login r here uid id)
unfolding login
login-IsConsistent r false uid id c there free = bind-IsConsistent r uid id c there free
login-IsConsistent r true uid id c there free =
    let (same, free') = kick-free r uid id c free in
    bind-IsConsistent (kick_user r uid) uid id (kick-IsConsistent r uid c) (same ∙ there) free'

step-IsConsistent :
    (r : Registry) (op : Op) → IsConsistent r → Allowed r op → IsConsistent (step r op)
unfolding step
step-IsConsistent r (accepts id) c a = accept-IsConsistent r id c a
step-IsConsistent r (clears id) c a =
    Clears-IsConsistent r id (clear_session r id) c (clear_session-Clears r id c)
step-IsConsistent r (kicks uid) c a = kick-IsConsistent r uid c
step-IsConsistent r (logs_in here uid id) c a = login-IsConsistent r here uid id c a.0 a.1

init-IsConsistent : IsConsistent init
unfolding init
init-IsConsistent = record {
  alive = λ uid id h. absurd (none-ne-some id h);
  owner = λ uid id h. absurd (none-ne-some id h);
}

run-lem :
    (r : Registry) (ops : List Op) → IsConsistent r → AllAllowed r ops → IsConsistent (run r ops)
unfolding run
run-lem r [] c a = c
run-lem r (op ∷ ops) c (cons b a) = run-lem (step r op) ops (step-IsConsistent r op c b) a

-- Over any sequence of new sessions, clearings, kicks and logins, where ids are new and a session
-- logs in once, while it is in the table: the session of a user is in the table of sessions and
-- belongs to this user.
pub run-IsConsistent : (ops : List Op) → AllAllowed init ops → IsConsistent (run init ops)
run-IsConsistent ops a = run-lem init ops init-IsConsistent a

-- A second login of a user on the same session, at the server where Redis has the user, leaves the
-- session bound to the user but out of the table of sessions, so that its next message closes it.
pub login_again :
    (r : Registry) (uid id : ℕ)
    → IsConsistent r
    → r.user_session uid ≡ some id
    → let t = login r true uid id in (t.user_session uid ≡ some id) × (check_valid t id ≡ false)
unfolding login kick_user bind check_valid
login_again r uid id c e =
    rw (e, kick_found)
      (
        assign-same (clear_session r id).user_session uid (some id),
        (clear_session-Clears r id c).gone,
      )
