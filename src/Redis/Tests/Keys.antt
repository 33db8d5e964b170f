-- ===== src/Redis/Tests/Keys.antt =====
-- A small Redis of texts and hashes, which does what the laws say.
use distributed_instant_mess.Base.{
  ◌≡◌, ◌≢◌, refl, sym, ap, ◌∙◌, inl, inr, Option, none, some, [], ◌∷◌, arith, if◌then◌else◌,
  Bool-cases,
}
use distributed_instant_mess.Base.Text.{Text, text_eq, text_eq_refl, text_eq_sound}
use distributed_instant_mess.Log.Numbers.{pos}
use distributed_instant_mess.Redis.{
  Reply, string, status, integer, nil, error, Command, redis_get, redis_setex, redis_set_nx,
  redis_eval_unlock, redis_hget, redis_hset, redis_del, Server, IsRedis, ok, Entry, absent, text,
  hash, TakesFields, script_after, unlock_script,
}

-- What a key has: nothing, a text, or the fields of a hash.
pub data Item : Type 0 where
  no_item : Item
  text_item : Text → Item
  hash_item : (Text → Option Text) → Item

abbrev pub Keys : Type 0
Keys = Text → Item

abbrev pub put : {A : Type 0} → (Text → A) → Text → A → Text → A
put f k v j = if text_eq j k then v else f j

pub put-same : {A : Type 0} (f : Text → A) (k : Text) (v : A) → put f k v k ≡ v
put-same f k v = rw (text_eq_refl k) refl

pub put-other :
    {A : Type 0} (f : Text → A) (k : Text) (v : A) (j : Text) → j ≢ k → put f k v j ≡ f j
put-other f k v j ne = elim (Bool-cases (text_eq j k)) [
  | inl e ↦ absurd (ne (text_eq_sound j k e))
  | inr e ↦ rw e refl
]

abbrev pub kind : Item → Entry
kind no_item = absent
kind (text_item v) = text v
kind (hash_item h) = hash

abbrev pub field_of : Item → Text → Option Text
field_of (hash_item h) f = h f
field_of _ f = none

abbrev pub reply_of : Option Text → Option Reply
reply_of none = some nil
reply_of (some v) = some (string v)

abbrev pub wrong : Option Reply
wrong = some (error (87 ∷ []))

abbrev pub get_at : Item → Option Reply
get_at no_item = some nil
get_at (text_item v) = some (string v)
get_at (hash_item h) = wrong

abbrev pub nx_at : Item → Keys → Text → Text → Option Reply × Keys
nx_at no_item s k x = (some (status ok), put s k (text_item x))
nx_at _ s k x = (some nil, s)

abbrev pub del_at : Item → Keys → Text → Option Reply × Keys
del_at no_item s k = (some (integer (pos 0)), s)
del_at _ s k = (some (integer (pos 1)), put s k no_item)

abbrev pub hget_at : Item → Text → Option Reply
hget_at no_item f = some nil
hget_at (text_item v) f = wrong
hget_at (hash_item h) f = reply_of (h f)

abbrev pub hset_at : Item → Keys → Text → Text → Text → Option Reply × Keys
hset_at no_item s k f x = (some (integer (pos 1)), put s k (hash_item (put (λ g. none) f (some x))))
hset_at (text_item v) s k f x = (wrong, s)
hset_at (hash_item h) s k f x = (some (integer (pos 1)), put s k (hash_item (put h f (some x))))

abbrev pub run : Keys → Command → Option Reply × Keys
run s (redis_get k) = (get_at (s k), s)
run s (redis_setex k n x) = (some (status ok), put s k (text_item x))
run s (redis_set_nx k x n) = nx_at (s k) s k x
run s (redis_del k) = del_at (s k) s k
run s (redis_eval_unlock k x) = script_after (λ t. del_at (t k) t k) x (get_at (s k), s)
run s (redis_hget k f) = (hget_at (s k) f, s)
run s (redis_hset k f x) = hset_at (s k) s k f x
run s _ = (some nil, s)

abbrev pub server : Server
server = record { State = Keys; command = run }

pub absent-ne-text : (w : Text) → absent ≢ text w
absent-ne-text w e = cc

pub hash-ne-text : (w : Text) → hash ≢ text w
hash-ne-text w e = cc

module _ (s : Keys) where
  pub get-text : (i : Item) (v : Text) → kind i ≡ text v → get_at i ≡ some (string v)
  get-text no_item v e = cc
  get-text (text_item w) v e = ground (arith, e)
  get-text (hash_item h) v e = cc

  pub nx-absent :
      (i : Item) (k v : Text)
      → kind i ≡ absent
      → ((nx_at i s k v).0 ≡ some (status ok)) × (kind ((nx_at i s k v).1 k) ≡ text v)
  nx-absent no_item k v e = (refl, ap kind (put-same s k (text_item v)))
  nx-absent (text_item w) k v e = cc
  nx-absent (hash_item h) k v e = cc

  pub nx-there : (i : Item) (k v : Text) → kind i ≢ absent → nx_at i s k v ≡ (some nil, s)
  nx-there no_item k v ne = absurd (ne refl)
  nx-there (text_item w) k v ne = refl
  nx-there (hash_item h) k v ne = refl

  pub nx-others : (i : Item) (k v j : Text) → j ≢ k → kind ((nx_at i s k v).1 j) ≡ kind (s j)
  nx-others no_item k v j ne = ap kind (put-other s k (text_item v) j ne)
  nx-others (text_item w) k v j ne = refl
  nx-others (hash_item h) k v j ne = refl

  -- A key that has no hash can get another item without one.
  pub put-fields :
      (k j f : Text) (i : Item)
      → field_of (s k) f ≡ field_of i f
      → field_of (put s k i j) f ≡ field_of (s j) f
  put-fields k j f i e = elim (Bool-cases (text_eq j k)) [
    | inl same ↦ rw same (sym e ∙ ap (λ x. field_of (s x) f) (sym (text_eq_sound j k same)))
    | inr other ↦ rw other refl
  ]

  pub nx-fields :
      (i : Item) (k v h f : Text) → s k ≡ i → field_of ((nx_at i s k v).1 h) f ≡ field_of (s h) f
  nx-fields no_item k v h f e = put-fields k h f (text_item v) (ap (λ i. field_of i f) e)
  nx-fields (text_item w) k v h f e = refl
  nx-fields (hash_item g) k v h f e = refl

  pub del-text :
      (i : Item) (k v : Text)
      → s k ≡ i
      → kind i ≡ text v
      → ((del_at i s k).0 ≡ some (integer (pos 1)))
        × (kind ((del_at i s k).1 k) ≡ absent)
        × ((h f : Text) → field_of ((del_at i s k).1 h) f ≡ field_of (s h) f)
  del-text no_item k v e is_text = cc
  del-text (text_item w) k v e is_text = (
    refl,
    ap kind (put-same s k no_item),
    λ h f. put-fields k h f no_item (ap (λ i. field_of i f) e),
  )
  del-text (hash_item g) k v e is_text = cc

  pub del-others : (i : Item) (k j : Text) → j ≢ k → kind ((del_at i s k).1 j) ≡ kind (s j)
  del-others no_item k j ne = refl
  del-others (text_item w) k j ne = ap kind (put-other s k no_item j ne)
  del-others (hash_item h) k j ne = ap kind (put-other s k no_item j ne)

  pub hget-some : (i : Item) (f v : Text) → field_of i f ≡ some v → hget_at i f ≡ some (string v)
  hget-some no_item f v e = cc
  hget-some (text_item w) f v e = cc
  hget-some (hash_item h) f v e = ap reply_of e

  pub hget-none :
      (i : Item) (f : Text) → TakesFields (kind i) → field_of i f ≡ none → hget_at i f ≡ some nil
  hget-none no_item f takes e = refl
  hget-none (text_item w) f takes e = absurd takes
  hget-none (hash_item h) f takes e = ap reply_of e

  pub hset-field :
      (i : Item) (k f v : Text)
      → TakesFields (kind i)
      → (field_of ((hset_at i s k f v).1 k) f ≡ some v) × (kind ((hset_at i s k f v).1 k) ≡ hash)
  hset-field no_item k f v takes = (
    ap (λ i. field_of i f) (put-same s k (hash_item (put (λ g. none) f (some v))))
        ∙ put-same (λ g. none) f (some v),
    ap kind (put-same s k (hash_item (put (λ g. none) f (some v)))),
  )
  hset-field (text_item w) k f v takes = absurd takes
  hset-field (hash_item h) k f v takes = (
    ap (λ i. field_of i f) (put-same s k (hash_item (put h f (some v)))) ∙ put-same h f (some v),
    ap kind (put-same s k (hash_item (put h f (some v)))),
  )

  pub hset-other :
      (i : Item) (k f v g : Text)
      → s k ≡ i
      → g ≢ f
      → field_of ((hset_at i s k f v).1 k) g ≡ field_of (s k) g
  hset-other no_item k f v g e ne =
      ap (λ i. field_of i g) (put-same s k (hash_item (put (λ x. none) f (some v))))
      ∙ put-other (λ x. none) f (some v) g ne
      ∙ sym (ap (λ i. field_of i g) e)
  hset-other (text_item w) k f v g e ne = refl
  hset-other (hash_item h) k f v g e ne =
      ap (λ i. field_of i g) (put-same s k (hash_item (put h f (some v))))
      ∙ put-other h f (some v) g ne
      ∙ sym (ap (λ i. field_of i g) e)

  -- Another item under a key that has no text leaves the texts.
  pub put-text :
      (k j : Text) (i : Item) (w : Text)
      → kind (s k) ≢ text w
      → kind (s j) ≡ text w
      → kind (put s k i j) ≡ text w
  put-text k j i w none_there e = elim (Bool-cases (text_eq j k)) [
    | inl same ↦ absurd (none_there (ap (λ x. kind (s x)) (sym (text_eq_sound j k same)) ∙ e))
    | inr other ↦ rw other e
  ]

  pub hset-text :
      (i : Item) (k f v j w : Text)
      → s k ≡ i
      → kind (s j) ≡ text w
      → kind ((hset_at i s k f v).1 j) ≡ text w
  hset-text no_item k f v j w e is_text =
      put-text k j (hash_item (put (λ g. none) f (some v))) w
        (λ t. absurd (absent-ne-text w (ap kind (sym e) ∙ t))) is_text
  hset-text (text_item x) k f v j w e is_text = is_text
  hset-text (hash_item h) k f v j w e is_text =
      put-text k j (hash_item (put h f (some v))) w
        (λ t. absurd (hash-ne-text w (ap kind (sym e) ∙ t))) is_text

pub eval-runs : (s : Keys) (k v : Text) → run s (redis_eval_unlock k v) ≡ unlock_script server s k v
unfolding unlock_script
eval-runs s k v = refl

abbrev pub server_laws : IsRedis server
server_laws = record {
  entry = λ s k. kind (s k);
  hvalue = λ s k f. field_of (s k) f;
  get_text = λ s k v e. rw (get-text s (s k) v e) refl;
  setex_ok = λ s k v n positive. refl;
  setex_text = λ s k v n positive. ap kind (put-same s k (text_item v));
  set_nx_absent = λ s k v n positive e. nx-absent s (s k) k v e;
  set_nx_there = λ s k v n positive ne. nx-there s (s k) k v ne;
  set_nx_others = λ s k v n j ne. nx-others s (s k) k v j ne;
  set_nx_hvalue = λ s k v n h f. nx-fields s (s k) k v h f refl;
  del_text = λ s k v e. del-text s (s k) k v refl e;
  del_others = λ s k j ne. del-others s (s k) k j ne;
  eval_runs = λ s k v. eval-runs s k v;
  hget_some = λ s h f v e. rw (hget-some s (s h) f v e) refl;
  hget_none = λ s h f takes e. rw (hget-none s (s h) f takes e) refl;
  hset_field = λ s h f v takes. hset-field s (s h) h f v takes;
  hset_other = λ s h f v g ne. hset-other s (s h) h f v g refl ne;
  hset_text = λ s h f v k w e. hset-text s (s h) h f v k w refl e;
}
