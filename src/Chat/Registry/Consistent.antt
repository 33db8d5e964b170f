-- ===== src/Chat/Registry/Consistent.antt =====
-- The two tables agree, and a user has one session.
use mathlib.Core.Option.{some-injective, none-ne-some}
use distributed_instant_mess.Base.{
  ℕ, ◌≡◌, ◌≢◌, refl, sym, ap, subst, ◌∙◌, ◌⊎◌, inl, inr, true, false, Option, none, some, ◌==◌,
  arith, Bool-cases, Option-cases, ==_iff,
}
use distributed_instant_mess.Base.Table.{assign, assign-same, assign-other}
use distributed_instant_mess.Chat.Registry.{
  Registry, rmv_user_session, rmv_found, clear_session, erase_session,
}

-- A user's session is in the table of sessions, and is of this user.
pub record IsConsistent (r : Registry) : Type 0 where
  pub alive : (uid id : ℕ) → r.user_session uid ≡ some id → r.sessions id ≡ true
  pub owner : (uid id : ℕ) → r.user_session uid ≡ some id → r.uid_of id ≡ uid

-- What clearing a session does to the tables.
pub record Clears (r : Registry) (id : ℕ) (r' : Registry) : Type 0 where
  pub gone : r'.sessions id ≡ false
  pub others_stay : (other : ℕ) → other ≢ id → r'.sessions other ≡ r.sessions other
  pub same_owners : (other : ℕ) → r'.uid_of other ≡ r.uid_of other
  pub removed : (uid : ℕ) → r.user_session uid ≡ some id → r'.user_session uid ≡ none
  pub users_stay :
      (uid : ℕ) → r.user_session uid ≢ some id → r'.user_session uid ≡ r.user_session uid

erased-Clears :
    (r : Registry) (users : ℕ → Option ℕ) (id : ℕ)
    → ((uid : ℕ) → r.user_session uid ≡ some id → users uid ≡ none)
    → ((uid : ℕ) → r.user_session uid ≢ some id → users uid ≡ r.user_session uid)
    → Clears r id (erase_session (record r { user_session = users }) id)
erased-Clears r users id removed stay = record {
  gone = assign-same r.sessions id false;
  others_stay = λ other ne. assign-other r.sessions id false other ne;
  same_owners = λ other. refl;
  removed = removed;
  users_stay = stay;
}

removed-Clears :
    (r : Registry) (id s : ℕ)
    → IsConsistent r
    → r.user_session (r.uid_of id) ≡ some s
    → Clears r id (erase_session (rmv_found r (r.uid_of id) id (some s)) id)
removed-Clears r id s c e = elim (Bool-cases (s == id)) [
  | inl same ↦
      let s_id : s ≡ id = (==_iff s id).0 same in
      rw same (
        erased-Clears r (assign r.user_session (r.uid_of id) none) id
          (λ uid h.
            subst (λ u. assign r.user_session (r.uid_of id) none u ≡ none) (c.owner uid id h)
              (assign-same r.user_session (r.uid_of id) none))
          (λ uid h.
            assign-other r.user_session (r.uid_of id) none uid
              (λ own. h (ap r.user_session own ∙ e ∙ ap some s_id))))
  | inr differ ↦ rw differ (
      erased-Clears r r.user_session id
        (λ uid h.
          let mine : s ≡ id =
            some-injective s id (sym e ∙ ap r.user_session (c.owner uid id h) ∙ h) in
          absurd (ground (arith, mine, differ)))
        (λ uid h. refl))
]

cleared-Clears :
    (r : Registry) (id : ℕ) (o : Option ℕ)
    → IsConsistent r
    → r.user_session (r.uid_of id) ≡ o
    → Clears r id (erase_session (rmv_found r (r.uid_of id) id o) id)
cleared-Clears r id none c e =
    erased-Clears r r.user_session id
      (λ uid h. absurd (none-ne-some id (sym e ∙ ap r.user_session (c.owner uid id h) ∙ h)))
      (λ uid h. refl)
cleared-Clears r id (some s) c e = removed-Clears r id s c e

-- Clearing a session takes it out of both tables and changes nothing else: a user who is logged in
-- with another session stays so.
pub clear_session-Clears :
    (r : Registry) (id : ℕ) → IsConsistent r → Clears r id (clear_session r id)
unfolding clear_session rmv_user_session
clear_session-Clears r id c = elim (Bool-cases (r.sessions id)) [
  | inl there ↦ rw there (cleared-Clears r id (r.user_session (r.uid_of id)) c refl)
  | inr away ↦
      rw away
        (erased-Clears r r.user_session id (λ uid h. cc (c.alive uid id h, away)) (λ uid h. refl))
]

-- The users who are left are those whose session was another.
pub Clears-cases :
    {r r' : Registry} {id : ℕ}
    → Clears r id r'
    → (uid : ℕ)
    → (r'.user_session uid ≡ none)
      ⊎ ((r'.user_session uid ≡ r.user_session uid) × (r.user_session uid ≢ some id))
Clears-cases {r} {r'} {id} d uid = elim (Option-cases (r.user_session uid)) [
  | inl nobody ↦
      let other : r.user_session uid ≢ some id = λ h. none-ne-some id (sym nobody ∙ h) in
      inr (d.users_stay uid other, other)
  | inr (s, e) ↦ elim (Bool-cases (s == id)) [
    | inl same ↦ inl (d.removed uid (e ∙ ap some ((==_iff s id).0 same)))
    | inr differ ↦
        let other : r.user_session uid ≢ some id = λ h.
          let mine = some-injective s id (sym e ∙ h) in absurd (ground (arith, mine, differ)) in
        inr (d.users_stay uid other, other)
  ]
]

pub Clears-IsConsistent :
    (r : Registry) (id : ℕ) (r' : Registry) → IsConsistent r → Clears r id r' → IsConsistent r'
Clears-IsConsistent r id r' c d = record {
  alive = λ uid other h. elim (Clears-cases d uid) [
    | inl nobody ↦ absurd (none-ne-some other (sym nobody ∙ h))
    | inr (same, ne) ↦
        d.others_stay other (λ e. ne (sym same ∙ h ∙ ap some e)) ∙ c.alive uid other (sym same ∙ h)
  ];
  owner = λ uid other h. elim (Clears-cases d uid) [
    | inl nobody ↦ absurd (none-ne-some other (sym nobody ∙ h))
    | inr (same, ne) ↦ d.same_owners other ∙ c.owner uid other (sym same ∙ h)
  ];
}
