-- ===== src/Resource/Logic/Cases.antt =====
-- What a step of a handler can end in, for a predicate on what it does.
use distributed_instant_mess.Base.{
  ℕ, ◌≡◌, refl, ap, inl, inr, Bool, true, false, Option, none, some, List, [], ◌∷◌, arith, ◌==◌,
  Bool-cases,
}
use distributed_instant_mess.Base.Text.{Text, text_eq, text_eq_sound}
use distributed_instant_mess.Resource.Download.{FileInfo}
use distributed_instant_mess.Resource.Logic.{
  RspId, file_save_redis_failed, file_not_exists, uid_invalid, token_invalid, Request, Services,
  Store, Act, throws, refuse,
}
use distributed_instant_mess.Resource.Logic.Uploads.{
  after_save, update_info, keep_info, token_of, test_token, check_token, unless_refused, with_sizes,
}

module _ {P : Type 0} (S : Services P) (R : Store P) (Q : List (Act P) → Type 0) where
  pub after_save-elim :
      (rsp : RspId) (b : Bool) (r : R.State) (post : List (Act P))
      → Q post
      → Q (refuse rsp file_save_redis_failed)
      → Q (after_save S R rsp (b, r) post).1
  after_save-elim rsp true r post p f = p
  after_save-elim rsp false r post p f = f

  update_info-elim :
      (rsp : RspId) (r : R.State) (key : Text) (i : Option (FileInfo P Text))
      (next : FileInfo P Text → FileInfo P Text) (post : List (Act P))
      → Q post
      → Q (refuse rsp file_save_redis_failed)
      → Q (refuse rsp file_not_exists)
      → Q (update_info S R rsp r key i next post).1
  update_info-elim rsp r key none next post p f n = n
  update_info-elim rsp r key (some i) next post p f n =
      after_save-elim rsp (R.set_file_info r key (next i)).0 (R.set_file_info r key (next i)).1 post
        p f

  pub keep_info-elim :
      (rsp_first rsp : RspId) (r : R.State) (key : Text) (first : FileInfo P Text)
      (next : FileInfo P Text → FileInfo P Text) (post : List (Act P))
      → Q post
      → Q (refuse rsp_first file_save_redis_failed)
      → Q (refuse rsp file_save_redis_failed)
      → Q (refuse rsp file_not_exists)
      → Q (keep_info S R rsp_first rsp r key first next post).1
  unfolding keep_info
  keep_info-elim rsp_first rsp r key first next post p f0 f n = elim (Bool-cases (first.seq == 1)) [
    | inl e ↦ rw e (
        after_save-elim rsp_first (R.set_file_info r key first).0 (R.set_file_info r key first).1
          post p f0)
    | inr e ↦ rw e (update_info-elim rsp r key (R.get_file_info r key) next post p f n)
  ]

  pub with_sizes-elim :
      (a b : Option ℕ) (r : R.State) (rest : ℕ → ℕ → R.State × List (Act P))
      → (a ≡ none → Q (throws ∷ []))
      → (b ≡ none → Q (throws ∷ []))
      → ((m n : ℕ) → Q (rest m n).1)
      → Q (with_sizes S R a b r rest).1
  with_sizes-elim none b r rest x y h = x refl
  with_sizes-elim (some m) none r rest x y h = y refl
  with_sizes-elim (some m) (some n) r rest x y h = h m n

module _ {P : Type 0} (S : Services P) (R : Store P) (Q : R.State × List (Act P) → Type 0) where
  test_token-elim :
      (rsp : RspId) (o : Option Text) (token : Text) (r : R.State) (rest : R.State × List (Act P))
      → Q (r, refuse rsp uid_invalid)
      → Q (r, refuse rsp token_invalid)
      → (o ≡ some token → Q rest)
      → Q (unless_refused S R (test_token S R rsp o token) r rest)
  test_token-elim rsp none token r rest u t h = u
  test_token-elim rsp (some v) token r rest u t h = elim (Bool-cases (text_eq v token)) [
    | inl e ↦ rw e (h (ap some (text_eq_sound v token e)))
    | inr e ↦ rw e t
  ]

  -- The request goes on if it is not the first, or has the token of its user.
  pub check_token-elim :
      (rsp : RspId) (r : R.State) (q : Request) (rest : R.State × List (Act P))
      → Q (r, refuse rsp uid_invalid)
      → Q (r, refuse rsp token_invalid)
      → ((q.seq ≡ 1 → token_of S R r q.uid ≡ some q.token) → Q rest)
      → Q (unless_refused S R (check_token S R rsp r q) r rest)
  unfolding check_token
  check_token-elim rsp r q rest u t h = elim (Bool-cases (q.seq == 1)) [
    | inl e ↦
        rw e (
          test_token-elim rsp (token_of S R r q.uid) q.token r rest u t (λ same. h (λ first. same)))
    | inr e ↦ rw e (h (λ first. absurd (ground (arith, e, first))))
  ]
