-- ===== src/Gate/Url/Query.antt =====
-- The parameters of a request are those that a client encoded.
use distributed_instant_mess.Base.{
  ℕ, zero, suc, ◌/◌, ◌%◌, ◌≤◌, ◌<◌, ◌≡◌, ◌≢◌, refl, sym, ap, inl, inr, false, none, some, List, [],
  ◌∷◌, ◌++◌, arith, length, ◌==◌, Bool-cases, length-append,
}
use distributed_instant_mess.Gate.Url.{
  is_plain, url_encode, find, Params, put_found, put_pair, put_last, parse_query, parse_found,
  pre_parse_get_param,
}
use distributed_instant_mess.Gate.Url.Encoding.{AreBytes, to_hex-plain, url_decode-encode}

-- A text without a character.
abbrev pub Lacks : ℕ → List ℕ → Type 0
Lacks d [] = Unit {0}
Lacks d (c ∷ s) = (c ≢ d) × Lacks d s

Lacks-append : (d : ℕ) (s t : List ℕ) → Lacks d s → Lacks d t → Lacks d (s ++ t)
Lacks-append d [] t h k = k
Lacks-append d (c ∷ s) t h k = (h.0, Lacks-append d s t h.1 k)

find-first : (c : ℕ) (a b : List ℕ) → Lacks c a → find c (a ++ c ∷ b) ≡ some (a, b)
unfolding find
find-first c [] b h = ground arith
find-first c (x ∷ a) b h =
    let other : (x == c) ≡ false = ground (arith, h.0) in rw (other, find-first c a b h.1) refl

find-none : (c : ℕ) (a : List ℕ) → Lacks c a → find c a ≡ none
unfolding find
find-none c [] h = refl
find-none c (x ∷ a) h =
    let other : (x == c) ≡ false = ground (arith, h.0) in rw (other, find-none c a h.1) refl

-- An encoded text has none of the characters that part a query.
url_encode-Lacks :
    (d : ℕ) (s : List ℕ)
    → AreBytes s
    → is_plain d ≡ false
    → d ≢ b'+'
    → d ≢ b'%'
    → Lacks d (url_encode s)
unfolding url_encode
url_encode-Lacks d [] h n a b = tt
url_encode-Lacks d (c ∷ s) h n a b =
    let rest = url_encode-Lacks d s h.1 n a b in
    elim (Bool-cases (is_plain c)) [
      | inl plain ↦ rw plain ((λ e. cc (plain, n, ap is_plain e)), rest)
      | inr other ↦ elim (Bool-cases (c == b' ')) [
        | inl space ↦ rw (other, space) ((λ e. a (sym e)), rest)
        | inr special ↦
            rw (other, special)
              (
                λ e. b (sym e),
                (
                  λ e. cc (to_hex-plain (c / 16) (omega (arith, h.0)), n, ap is_plain e),
                  (λ e. cc (to_hex-plain (c % 16) (omega arith), n, ap is_plain e), rest),
                ),
              )
      ]
    ]

-- What a client sends for its parameters.
abbrev pub encode_pair : List ℕ × List ℕ → List ℕ
encode_pair (key, value) = url_encode key ++ b'=' ∷ url_encode value

abbrev pub encode_query : (List ℕ × List ℕ) → Params → List ℕ
encode_query p [] = encode_pair p
encode_query p (q ∷ ps) = encode_pair p ++ b'&' ∷ encode_query q ps

abbrev pub ArePairs : Params → Type 0
ArePairs [] = Unit {0}
ArePairs ((key, value) ∷ ps) = AreBytes key × AreBytes value × ArePairs ps

put_pair-encode :
    (params : Params) (key value : List ℕ)
    → AreBytes key
    → AreBytes value
    → put_pair params (encode_pair (key, value)) ≡ some ((key, value) ∷ params)
unfolding put_pair is_plain
put_pair-encode params key value h k =
    rw
      (
        find-first b'=' (url_encode key) (url_encode value)
            (url_encode-Lacks b'=' key h refl (omega arith) (omega arith)),
        put_found,
        url_decode-encode key h,
        url_decode-encode value k,
      )
      refl

encode_pair-Lacks :
    (key value : List ℕ) → AreBytes key → AreBytes value → Lacks b'&' (encode_pair (key, value))
unfolding is_plain
encode_pair-Lacks key value h k =
    Lacks-append b'&' (url_encode key) (b'=' ∷ url_encode value)
      (url_encode-Lacks b'&' key h refl (omega arith) (omega arith))
      (omega arith, url_encode-Lacks b'&' value k refl (omega arith) (omega arith))

put_last-put_pair :
    (params : Params) (query : List ℕ)
    → 0 < length query
    → put_last params query ≡ put_pair params query
put_last-put_pair params [] h = absurd (omega arith)
put_last-put_pair params (c ∷ rest) h = refl

-- The map after assignments in order: a list with the last one first.
abbrev pub assigned : Params → Params → Params
assigned params [] = params
assigned params (p ∷ ps) = assigned (p ∷ params) ps

parse_query-encode :
    (fuel : ℕ) (key value : List ℕ) (ps params : Params)
    → AreBytes key
    → AreBytes value
    → ArePairs ps
    → length ps ≤ fuel
    → parse_query (suc fuel) (encode_query (key, value) ps) params
      ≡ some (assigned ((key, value) ∷ params) ps)
unfolding parse_query
parse_query-encode fuel key value [] params h k a l =
    rw
      (
        parse_query,
        find-none b'&' (encode_pair (key, value)) (encode_pair-Lacks key value h k),
        put_last-put_pair params (encode_pair (key, value))
            (omega (arith, length-append (url_encode key) (b'=' ∷ url_encode value))),
        put_pair-encode params key value h k,
      )
      refl
parse_query-encode zero key value (q ∷ ps) params h k a l = absurd (omega arith)
parse_query-encode (suc fuel) key value ((key', value') ∷ ps) params h k a l =
    rw
      (
        parse_query,
        find-first b'&' (encode_pair (key, value)) (encode_query (key', value') ps)
            (encode_pair-Lacks key value h k),
        put_pair-encode params key value h k,
      )
      (parse_query-encode fuel key' value' ps ((key, value) ∷ params) a.0 a.1 a.2 (omega arith))

length-encode_query :
    (key value : List ℕ) (ps : Params) → length ps ≤ length (encode_query (key, value) ps)
length-encode_query key value [] = omega arith
length-encode_query key value ((key', value') ∷ ps) = omega (
  arith,
  length-append (encode_pair (key, value)) (b'&' ∷ encode_query (key', value') ps),
  length-encode_query key' value' ps,
)

-- Whatever the bytes of the keys and values, the parameters that a client encodes into a request
-- come out as they are, assigned in order, and so does the path, which has no question mark.
pub pre_parse-encode :
    (path key value : List ℕ) (ps : Params)
    → Lacks b'?' path
    → AreBytes key
    → AreBytes value
    → ArePairs ps
    → pre_parse_get_param (path ++ b'?' ∷ encode_query (key, value) ps)
      ≡ some (path, assigned ((key, value) ∷ []) ps)
unfolding pre_parse_get_param
pre_parse-encode path key value ps n h k a =
    rw
      (
        find-first b'?' path (encode_query (key, value) ps) n,
        parse_found,
        parse_query-encode (length (encode_query (key, value) ps)) key value ps [] h k a
            (length-encode_query key value ps),
      )
      refl
