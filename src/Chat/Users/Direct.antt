-- ===== src/Chat/Users/Direct.antt =====
-- The cache changes no answer.
use mathlib.Core.Option.{some-injective}
use mathlib.Core.Bool.{true≢false}
use distributed_instant_mess.Base.{
  ℕ, ◌≡◌, ◌≢◌, refl, sym, ap, ◌∙◌, subst, inl, inr, Bool, true, false, Option, none, some, List, [],
  ◌∷◌, ◌++◌, map, arith, append_inj, if◌then◌else◌, Bool-cases,
}
use distributed_instant_mess.Base.Text.{Text, text_eq, text_eq_refl, text_eq_sound}
use distributed_instant_mess.Chat.Users.{
  UserInfo, Cache, Services, user_base_info, name_info, Lookup, found, uid_invalid, throws,
  is_pure_digit, keep_user, base_info_found, get_base_info, user_of, by_uid_found, get_user_by_uid,
  by_name_found, get_user_by_name, search_info,
}

-- Redis keeps what it was given last.
pub record Keeps (R : Cache) : Type 0 where
  pub get-set : (r : R.State) (k v : Text) → R.get (R.set r k v) k ≡ some v
  pub get_other : (r : R.State) (k v j : Text) → j ≢ k → R.get (R.set r k v) j ≡ R.get r j

-- Json gives a user back, and a number can be read from its text.
pub record IsJson (S : Services) : Type 0 where
  pub parse-styled : (u : UserInfo) → S.parse (S.to_styled_string u) ≡ u
  pub stoi-to_string : (n : ℕ) → S.stoi (S.to_string n) ≡ some n

-- What the callers ask for.
pub data Query : Type 0 where
  base_info : ℕ → Query
  search : Text → Query

abbrev first_of : Text → ℕ
first_of [] = 0
first_of (c ∷ s) = c

module _ (S : Services) where
  abbrev pub direct_user : Option UserInfo → Lookup
  direct_user none = uid_invalid
  direct_user (some u) = found u

  abbrev pub direct_uid : Option ℕ → Lookup
  direct_uid none = throws
  direct_uid (some uid) = direct_user (S.get_user uid)

  -- The answer of the database alone.
  unfoldable pub direct : Query → Lookup
  direct (base_info uid) = direct_user (S.get_user uid)
  direct (search s) =
      if is_pure_digit s then direct_uid (S.stoi s) else direct_user (S.get_user_named s)

module _ (R : Cache) (S : Services) where
  unfoldable pub ask : R.State → Query → Lookup × R.State
  ask r (base_info uid) = get_base_info R S r uid
  ask r (search s) = search_info R S r s

  -- The answers to queries, one after the other.
  unfoldable pub ask_all : R.State → List Query → List Lookup
  ask_all r [] = []
  ask_all r (q ∷ qs) = (ask r q).0 ∷ ask_all (ask r q).1 qs

  -- Each entry of the two kinds is what the database has.
  pub record IsCoherent (r : R.State) : Type 0 where
    pub by_uid :
        (s v : Text)
        → R.get r (user_base_info ++ s) ≡ some v
        → direct_uid S (S.stoi s) ≡ found (S.parse v)
    pub by_name :
        (s v : Text)
        → R.get r (name_info ++ s) ≡ some v
        → direct_user S (S.get_user_named s) ≡ found (S.parse v)

  module _ (K : Keeps R) (J : IsJson S) where
    -- The answer, and a cache that is still coherent.
    record IsDirect (l : Lookup) (p : Lookup × R.State) : Type 0 where
      same : p.0 ≡ l
      coherent : IsCoherent p.1

    base_inj : (s t : Text) → user_base_info ++ s ≡ user_base_info ++ t → s ≡ t
    base_inj s t e = (append_inj user_base_info {ys = s} {zs = user_base_info} {ws = t} refl e).1

    name_inj : (s t : Text) → name_info ++ s ≡ name_info ++ t → s ≡ t
    name_inj s t e = (append_inj name_info {ys = s} {zs = name_info} {ws = t} refl e).1

    -- The two kinds of keys differ in their first letters.
    base_not_name : (s t : Text) → user_base_info ++ s ≢ name_info ++ t
    base_not_name s t e = absurd (ground (arith, ap first_of e))

    styled-found :
        (r : R.State) (k v : Text) (u : UserInfo)
        → R.get (R.set r k (S.to_styled_string u)) k ≡ some v
        → found u ≡ found (S.parse v)
    styled-found r k v u h = ap found (
        sym (J.parse-styled u)
        ∙ ap S.parse (some-injective _ _ (sym (K.get-set r k (S.to_styled_string u)) ∙ h)))

    not_same : (s t : Text) → text_eq t s ≡ false → t ≢ s
    not_same s t other e =
        true≢false (sym (text_eq_refl s) ∙ subst (λ x. text_eq x s ≡ false) e other)

    set-by_uid :
        (r : R.State) (s : Text) (u : UserInfo)
        → IsCoherent r
        → direct_uid S (S.stoi s) ≡ found u
        → IsCoherent (R.set r (user_base_info ++ s) (S.to_styled_string u))
    set-by_uid r s u c e = record {
      by_uid = λ t v h. elim (Bool-cases (text_eq t s)) [
        | inl same ↦
            subst (λ x. direct_uid S (S.stoi x) ≡ found (S.parse v)) (sym (text_eq_sound t s same))
              (e
                ∙ styled-found r (user_base_info ++ s) v u (
                    subst
                      (λ x.
                        R.get (R.set r (user_base_info ++ s) (S.to_styled_string u))
                          (user_base_info ++ x)
                        ≡ some v)
                      (text_eq_sound t s same) h))
        | inr other ↦ c.by_uid t v (
            sym (
              K.get_other r (user_base_info ++ s) (S.to_styled_string u) (user_base_info ++ t)
                (λ q. not_same s t other (base_inj t s q)))
            ∙ h)
      ];
      by_name = λ t v h. c.by_name t v (
          sym (
            K.get_other r (user_base_info ++ s) (S.to_styled_string u) (name_info ++ t)
              (λ q. base_not_name s t (sym q)))
          ∙ h);
    }

    set-by_name :
        (r : R.State) (s : Text) (u : UserInfo)
        → IsCoherent r
        → direct_user S (S.get_user_named s) ≡ found u
        → IsCoherent (R.set r (name_info ++ s) (S.to_styled_string u))
    set-by_name r s u c e = record {
      by_uid = λ t v h. c.by_uid t v (
          sym (
            K.get_other r (name_info ++ s) (S.to_styled_string u) (user_base_info ++ t)
              (base_not_name t s))
          ∙ h);
      by_name = λ t v h. elim (Bool-cases (text_eq t s)) [
        | inl same ↦
            subst (λ x. direct_user S (S.get_user_named x) ≡ found (S.parse v))
              (sym (text_eq_sound t s same))
              (e
                ∙ styled-found r (name_info ++ s) v u (
                    subst
                      (λ x.
                        R.get (R.set r (name_info ++ s) (S.to_styled_string u)) (name_info ++ x)
                        ≡ some v)
                      (text_eq_sound t s same) h))
        | inr other ↦ c.by_name t v (
            sym (
              K.get_other r (name_info ++ s) (S.to_styled_string u) (name_info ++ t)
                (λ q. not_same s t other (name_inj t s q)))
            ∙ h)
      ];
    }

    keep-IsDirect :
        (r : R.State) (key : Text) (o : Option UserInfo)
        → IsCoherent r
        → ((u : UserInfo) → o ≡ some u → IsCoherent (R.set r key (S.to_styled_string u)))
        → IsDirect (direct_user S o) (keep_user R S r key o)
    keep-IsDirect r key none c h = record { same = refl; coherent = c }
    keep-IsDirect r key (some u) c h = record { same = refl; coherent = h u refl }

    base_info-IsDirect :
        (r : R.State) (uid : ℕ) (o : Option Text)
        → IsCoherent r
        → R.get r (user_base_info ++ S.to_string uid) ≡ o
        → IsDirect
            (direct_user S (S.get_user uid))
            (base_info_found R S r (user_base_info ++ S.to_string uid) uid o)
    base_info-IsDirect r uid (some v) c e = record {
      same = sym (c.by_uid (S.to_string uid) v e) ∙ ap (direct_uid S) (J.stoi-to_string uid);
      coherent = c;
    }
    base_info-IsDirect r uid none c e =
        keep-IsDirect r (user_base_info ++ S.to_string uid) (S.get_user uid) c λ u q.
          set-by_uid r (S.to_string uid) u c
            (ap (direct_uid S) (J.stoi-to_string uid) ∙ ap (direct_user S) q)

    user_of-IsDirect :
        (r : R.State) (s : Text) (o : Option ℕ)
        → IsCoherent r
        → S.stoi s ≡ o
        → IsDirect (direct_uid S o) (user_of R S o r (user_base_info ++ s))
    user_of-IsDirect r s none c e = record { same = refl; coherent = c }
    user_of-IsDirect r s (some uid) c e =
        keep-IsDirect r (user_base_info ++ s) (S.get_user uid) c
          λ u q. set-by_uid r s u c (ap (direct_uid S) e ∙ ap (direct_user S) q)

    by_uid-IsDirect :
        (r : R.State) (s : Text) (o : Option Text)
        → IsCoherent r
        → R.get r (user_base_info ++ s) ≡ o
        → IsDirect (direct_uid S (S.stoi s)) (by_uid_found R S r (user_base_info ++ s) s o)
    by_uid-IsDirect r s (some v) c e = record { same = sym (c.by_uid s v e); coherent = c }
    by_uid-IsDirect r s none c e = user_of-IsDirect r s (S.stoi s) c refl

    by_name-IsDirect :
        (r : R.State) (s : Text) (o : Option Text)
        → IsCoherent r
        → R.get r (name_info ++ s) ≡ o
        → IsDirect (direct_user S (S.get_user_named s)) (by_name_found R S r (name_info ++ s) s o)
    by_name-IsDirect r s (some v) c e = record { same = sym (c.by_name s v e); coherent = c }
    by_name-IsDirect r s none c e =
        keep-IsDirect r (name_info ++ s) (S.get_user_named s) c
          λ u q. set-by_name r s u c (ap (direct_user S) q)

    search-IsDirect :
        (r : R.State) (s : Text) (b : Bool)
        → IsCoherent r
        → IsDirect
            (if b then direct_uid S (S.stoi s) else direct_user S (S.get_user_named s))
            (if b then get_user_by_uid R S r s else get_user_by_name R S r s)
    unfolding get_user_by_uid get_user_by_name
    search-IsDirect r s true c = by_uid-IsDirect r s (R.get r (user_base_info ++ s)) c refl
    search-IsDirect r s false c = by_name-IsDirect r s (R.get r (name_info ++ s)) c refl

    ask-IsDirect : (r : R.State) (q : Query) → IsCoherent r → IsDirect (direct S q) (ask r q)
    unfolding ask direct get_base_info search_info
    ask-IsDirect r (base_info uid) c =
        base_info-IsDirect r uid (R.get r (user_base_info ++ S.to_string uid)) c refl
    ask-IsDirect r (search s) c = search-IsDirect r s (is_pure_digit s) c

    -- The lookups by GetBaseInfo and SearchInfo, any number of them in any order, have the same
    -- answers as the database alone, errors and exceptions included, though most of them are taken
    -- from Redis. Before, Redis has no entry for a user that the database would answer differently.
    -- The database does not change meanwhile, Redis keeps what it is given, Json gives a user back
    -- that it has written, and a number can be read from its text.
    pub ask_all-eq :
        (qs : List Query) (r : R.State) → IsCoherent r → ask_all r qs ≡ map (direct S) qs
    unfolding ask_all
    ask_all-eq [] r c = refl
    ask_all-eq (q ∷ qs) r c =
        let d = ask-IsDirect r q c in rw (d.same, ask_all-eq qs (ask r q).1 d.coherent) refl
