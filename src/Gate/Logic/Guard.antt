-- ===== src/Gate/Logic/Guard.antt =====
-- Which requests change the database.
use mathlib.Core.Option.{none-ne-some, some-injective}
use distributed_instant_mess.Base.{
  ◌≡◌, ◌↔◌, ◌⊎◌, refl, ap, inl, inr, Bool, true, false, Option, none, some, List, [], ◌∷◌, arith,
  if◌then◌else◌, Bool-cases,
}
use distributed_instant_mess.Base.Text.{text_eq_refl, text_eq_sound}
use distributed_instant_mess.Storage.Session.{Answer, throws, gives, Count}
use distributed_instant_mess.Gate.Logic.{
  Text, text_eq, Request, Services, Call, calls_update_pwd, same_email, is_executed, check_email,
  update_pwd, failure, passwd_err, reset, CodeCheck, expired, wrong, right, check_code, reg_call,
  reg_checked, user_register, reset_checked, reset_pwd,
}

check_code-right :
    (o : Option Text) (given : Text) → (check_code o given ≡ right) ↔ (o ≡ some given)
unfolding check_code
check_code-right none given = (λ e. absurd (ground (arith, e)), λ e. absurd (none-ne-some _ e))
check_code-right (some v) given = (
  λ e. elim (Bool-cases (text_eq v given)) [
    | inl same ↦ ap some (text_eq_sound v given same)
    | inr other ↦ absurd (ground (arith, rw other at e))
  ],
  λ e. rw (some-injective _ _ e, text_eq_refl given) refl,
)

-- The code of the request is the one that Redis holds for the address.
abbrev pub HasCode : Services → Request → Type 0
HasCode S q = S.get_code q.email ≡ some q.varifycode

-- The call is made if and only if `P` holds, and no other call is made.
abbrev pub IsMadeFor : Call → List Call → Type 0 → Type 0
IsMadeFor call calls P = ((calls ≡ call ∷ []) ↔ P) × ((calls ≡ []) ⊎ (calls ≡ call ∷ []))

same_found :
    (found email : Text)
    → ◌≡◌ {A = Answer (Option Text)} (gives (some found)) (gives (some email))
    → found ≡ email
same_found found email e = cc

same_email-true :
    (email : Text) (o : Answer (Option Text))
    → (same_email email o ≡ true) ↔ (o ≡ gives (some email))
same_email-true email (throws code) = (λ e. cc, λ e. cc)
same_email-true email (gives none) = (λ e. cc, λ e. absurd (ground (arith, e)))
same_email-true email (gives (some found)) = (
  λ e. ap (λ s. gives (some s)) (text_eq_sound found email e),
  λ e. rw (same_found found email e) (text_eq_refl email),
)

-- The database has executed the statement, whatever number of rows it has changed.
abbrev pub IsExecuted : Answer Count → Type 0
IsExecuted (throws code) = ⊥
IsExecuted (gives update_count) = Unit {0}

is_executed-true : (o : Answer Count) → (is_executed o ≡ true) ↔ IsExecuted o
is_executed-true (throws code) = (λ e. cc, λ h. absurd h)
is_executed-true (gives update_count) = (λ e. tt, λ h. refl)

check_email-true :
    (S : Services) (name email : Text)
    → (check_email S name email ≡ true) ↔ (S.select_email name ≡ gives (some email))
unfolding check_email
check_email-true S name email = same_email-true email (S.select_email name)

update_pwd-true :
    (S : Services) (name pwd : Text)
    → (update_pwd S name pwd ≡ true) ↔ IsExecuted (S.execute_update name pwd)
unfolding update_pwd
update_pwd-true S name pwd = is_executed-true (S.execute_update name pwd)

reset_checked-call :
    (S : Services) (c : CodeCheck) (q : Request)
    → ((reset_checked S c q).0 ≡ calls_update_pwd q.user q.passwd ∷ [])
      ↔ ((c ≡ right) × (check_email S q.user q.email ≡ true))
reset_checked-call S expired q =
    (λ e. absurd (ground (arith, e)), λ (e, _). absurd (ground (arith, e)))
reset_checked-call S wrong q =
    (λ e. absurd (ground (arith, e)), λ (e, _). absurd (ground (arith, e)))
reset_checked-call S right q = ground arith

reset_checked-reset :
    (S : Services) (c : CodeCheck) (q : Request)
    → ((reset_checked S c q).1 ≡ reset) ↔ (
        (c ≡ right) × (check_email S q.user q.email ≡ true) × (update_pwd S q.user q.passwd ≡ true))
reset_checked-reset S expired q =
    (λ e. absurd (ground (arith, e)), λ (e, _, _). absurd (ground (arith, e)))
reset_checked-reset S wrong q =
    (λ e. absurd (ground (arith, e)), λ (e, _, _). absurd (ground (arith, e)))
reset_checked-reset S right q = ground arith

reg_checked-call :
    (S : Services) (c : CodeCheck) (q : Request)
    → ((reg_checked S c q).0 ≡ reg_call S q ∷ []) ↔ (c ≡ right)
reg_checked-call S expired q = (λ e. absurd (ground (arith, e)), λ e. absurd (ground (arith, e)))
reg_checked-call S wrong q = (λ e. absurd (ground (arith, e)), λ e. absurd (ground (arith, e)))
reg_checked-call S right q = ground arith

reg_checked-only :
    (S : Services) (c : CodeCheck) (q : Request)
    → ((reg_checked S c q).0 ≡ []) ⊎ ((reg_checked S c q).0 ≡ reg_call S q ∷ [])
reg_checked-only S expired q = inl refl
reg_checked-only S wrong q = inl refl
reg_checked-only S right q = inr ((reg_checked-call S right q).1 refl)

reset_checked-only :
    (S : Services) (c : CodeCheck) (q : Request)
    → ((reset_checked S c q).0 ≡ [])
      ⊎ ((reset_checked S c q).0 ≡ calls_update_pwd q.user q.passwd ∷ [])
reset_checked-only S expired q = inl refl
reset_checked-only S wrong q = inl refl
reset_checked-only S right q = elim (Bool-cases (check_email S q.user q.email)) [
  | inl valid ↦ inr ((reset_checked-call S right q).1 (refl, valid))
  | inr invalid ↦ inl (simp invalid)
]

register_if :
    (S : Services) (b : Bool) (c : CodeCheck) (q : Request)
    → IsMadeFor
        (reg_call S q)
        (if b then reg_checked S c q else ([], failure passwd_err)).0
        ((b ≡ true) × (c ≡ right))
register_if S false c q =
    ((λ e. absurd (ground (arith, e)), λ (e, _). absurd (ground (arith, e))), inl refl)
register_if S true c q = (
  (λ e. (refl, (reg_checked-call S c q).0 e), λ (_, e). (reg_checked-call S c q).1 e),
  reg_checked-only S c q,
)

-- `reset_pwd` calls `UpdatePwd`, for the user and the password of the request, exactly if the request
-- has the code that Redis holds for its address and the database answers the select of the user's
-- address with this address, and it answers success exactly if the database has then also executed
-- the update, whatever number of rows that has changed. `user_register` calls `RegUser` with the
-- fields of the request exactly if its two passwords are the same and it has the code that Redis holds
-- for its address. Neither calls the database to write anything else. What `RegUser` then does is not
-- part of this.
pub writes-guard :
    (S : Services) (q : Request)
    → IsMadeFor
        (calls_update_pwd q.user q.passwd)
        (reset_pwd S (some q)).0
        (HasCode S q × (S.select_email q.user ≡ gives (some q.email)))
      × (((reset_pwd S (some q)).1 ≡ reset) ↔ (
          HasCode S q
          × (S.select_email q.user ≡ gives (some q.email))
          × IsExecuted (S.execute_update q.user q.passwd)))
      × IsMadeFor (reg_call S q) (user_register S (some q)).0 ((q.passwd ≡ q.confirm) × HasCode S q)
unfolding reset_pwd user_register
writes-guard S q =
    let c = check_code (S.get_code q.email) q.varifycode in
    let granted = check_code-right (S.get_code q.email) q.varifycode in
    let owned = check_email-true S q.user q.email in
    let written = update_pwd-true S q.user q.passwd in
    let call = reset_checked-call S c q in
    let success = reset_checked-reset S c q in
    let register = register_if S (text_eq q.passwd q.confirm) c q in
    (
      (
        (
          λ e. let (a, b) = call.0 e in (granted.0 a, owned.0 b),
          λ (a, b). call.1 (granted.1 a, owned.1 b),
        ),
        reset_checked-only S c q,
      ),
      (
        λ e. let (a, b, d) = success.0 e in (granted.0 a, owned.0 b, written.0 d),
        λ (a, b, d). success.1 (granted.1 a, owned.1 b, written.1 d),
      ),
      (
        (
          λ e. let (a, b) = register.0.0 e in (text_eq_sound q.passwd q.confirm a, granted.0 b),
          λ (a, b). register.0.1 (rw a (text_eq_refl q.confirm), granted.1 b),
        ),
        register.1,
      ),
    )
