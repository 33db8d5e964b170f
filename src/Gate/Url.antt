-- ===== src/Gate/Url.antt =====
-- GateServer/HttpConnection.cpp: percent-encoding, and the parameters of a GET request. A text is
-- the list of its bytes.
pub mod Encoding
pub mod Query
use distributed_instant_mess.Base.{
  ℕ, zero, suc, ◌+◌, ◌-◌, ◌*◌, ◌/◌, ◌%◌, Bool, true, false, ◌&&◌, ◌||◌, Option, none, some, List,
  [], ◌∷◌, ltb, leb, ◌==◌, if◌then◌else◌, length,
}

-- `x > 9 ? x + 55 : x + 48` on an `unsigned char`.
unfoldable pub to_hex : ℕ → ℕ
to_hex x = if ltb 9 x then (x + 55) % 256 else (x + 48) % 256

-- `none` is the assertion that fails.
unfoldable pub from_hex : ℕ → Option ℕ
from_hex x =
    if leb b'A' x && leb x b'Z'
    then some (x - b'A' + 10)
    else if leb b'a' x && leb x b'z'
    then some (x - b'a' + 10)
    else if leb b'0' x && leb x b'9'
    then some (x - b'0')
    else none

-- `isalnum` in the C locale.
abbrev pub is_alnum : ℕ → Bool
is_alnum c =
    (leb b'0' c && leb c b'9') || ((leb b'A' c && leb c b'Z') || (leb b'a' c && leb c b'z'))

-- The characters that stay as they are.
unfoldable pub is_plain : ℕ → Bool
is_plain c = is_alnum c || (c == b'-' || (c == b'_' || (c == b'.' || c == b'~')))

unfoldable pub url_encode : List ℕ → List ℕ
url_encode [] = []
url_encode (c ∷ s) =
    let rest = url_encode s in
    if is_plain c
    then c ∷ rest
    else if c == b' '
    then b'+' ∷ rest
    else b'%' ∷ to_hex (c / 16) ∷ to_hex (c % 16) ∷ rest

-- A character in front of a result that is there.
abbrev pub push : ℕ → Option (List ℕ) → Option (List ℕ)
push c none = none
push c (some s) = some (c ∷ s)

-- A character that is not `%`.
abbrev pub plain_char : ℕ → ℕ
plain_char c = if c == b'+' then b' ' else c

-- `high * 16 + low`, as a `char`.
abbrev pub push_hex : Option ℕ → Option ℕ → Option (List ℕ) → Option (List ℕ)
push_hex (some high) (some low) rest = push ((high * 16 + low) % 256) rest
push_hex _ _ rest = none

unfoldable pub url_decode : List ℕ → Option (List ℕ)
url_decode [] = some []
url_decode (c ∷ []) = if c == b'%' then none else some (plain_char c ∷ [])
url_decode (c ∷ d ∷ []) =
    let rest = url_decode (d ∷ []) in if c == b'%' then none else push (plain_char c) rest
url_decode (c ∷ d ∷ e ∷ s) =
    let rest = url_decode (d ∷ e ∷ s) in
    let after = url_decode s in
    if c == b'%' then push_hex (from_hex d) (from_hex e) after else push (plain_char c) rest

-- `find(c)`: what stands before the first `c`, and what stands behind it.
unfoldable pub find : ℕ → List ℕ → Option (List ℕ × List ℕ)
find c [] = none
find c (x ∷ s) =
    if x == c
    then some ([], s)
    else (elim (find c s) [ none ↦ none | some (a, b) ↦ some (x ∷ a, b) ])

-- `_get_params`: the assignments, the last one first. An assertion that fails is `none`.
abbrev pub Params : Type 0
Params = List (List ℕ × List ℕ)

abbrev pub put_decoded : Params → Option (List ℕ) → Option (List ℕ) → Option Params
put_decoded params (some key) (some value) = some ((key, value) ∷ params)
put_decoded params _ _ = none

abbrev pub put_found : Params → Option (List ℕ × List ℕ) → Option Params
put_found params none = some params
put_found params (some (key, value)) = put_decoded params (url_decode key) (url_decode value)

-- One pair: text without `=` is passed over.
unfoldable pub put_pair : Params → List ℕ → Option Params
put_pair params pair = put_found params (find b'=' pair)

-- What stands behind the last `&`.
abbrev pub put_last : Params → List ℕ → Option Params
put_last params [] = some params
put_last params (c ∷ rest) = put_pair params (c ∷ rest)

-- The loop over `&`, and the last parameter behind it. Each round takes a character at least off.
unfoldable pub parse_query : ℕ → List ℕ → Params → Option Params
parse_query zero query params = some params
parse_query (suc fuel) query params = elim (find b'&' query) [
  | none ↦ put_last params query
  | some (pair, rest) ↦ elim (put_pair params pair) [
    | none ↦ none
    | some params' ↦ parse_query fuel rest params'
  ]
]

-- `PreParseGetParam`: the path and the parameters.
abbrev pub parse_found : List ℕ → Option (List ℕ × List ℕ) → Option (List ℕ × Params)
parse_found uri none = some (uri, [])
parse_found uri (some (path, query)) = elim (parse_query (suc (length query)) query []) [
  | none ↦ none
  | some params ↦ some (path, params)
]

unfoldable pub pre_parse_get_param : List ℕ → Option (List ℕ × Params)
pre_parse_get_param uri = parse_found uri (find b'?' uri)
