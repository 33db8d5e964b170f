-- ===== src/Gate/Tests.antt =====
-- Runs of the gate server's parsers on small inputs.
use distributed_instant_mess.Base.{
  none, ◌↔◌, if◌then◌else◌, ℕ, ◌≡◌, some, List, [], ◌∷◌, ◌++◌, arith,
}
use distributed_instant_mess.Gate.Logic.{
  Services, Request, text_eq, calls_update_pwd, reset, reset_pwd, reg_call, user_register,
}
use distributed_instant_mess.Storage.Session.{gives, rows}
use distributed_instant_mess.Gate.Logic.Guard.{IsMadeFor, HasCode, IsExecuted, writes-guard}
use distributed_instant_mess.Log.Numbers.{pos}
use distributed_instant_mess.Gate.Url.{Params, pre_parse_get_param}
use distributed_instant_mess.Gate.Url.Query.{encode_query, assigned, pre_parse-encode}

-- `a &`, with a byte that is no ASCII.
abbrev text : List ℕ
text = b'a' ∷ b' ' ∷ b'&' ∷ 228 ∷ []

abbrev more_params : Params
more_params = (b'k' ∷ [], b'=' ∷ []) ∷ []

pre_parse-encode_example :
    pre_parse_get_param ((b'/' ∷ b'g' ∷ []) ++ b'?' ∷ encode_query (text, []) more_params)
    ≡ some (b'/' ∷ b'g' ∷ [], assigned ((text, []) ∷ []) more_params)
pre_parse-encode_example =
    pre_parse-encode (b'/' ∷ b'g' ∷ []) text [] more_params
      ((λ e. absurd (omega (arith, e))), ((λ e. absurd (omega (arith, e))), tt))
      (omega arith, (omega arith, (omega arith, (omega arith, tt)))) tt
      ((omega arith, tt), (omega arith, tt), tt)

-- Redis holds the code `1` for the address `m`, which is the user `u`'s.
abbrev services : Services
services = record {
  get_code = λ email. if text_eq email (b'm' ∷ []) then some (b'1' ∷ []) else none;
  reg_user = λ q. pos 12;
  select_email = λ name. gives (if text_eq name (b'u' ∷ []) then some (b'm' ∷ []) else none);
  execute_update = λ name pwd. gives (rows 1);
  find_user = λ email pwd. none;
  chat_server = λ uid. none;
}

abbrev request : Request
request = record {
  email = b'm' ∷ [];
  user = b'u' ∷ [];
  passwd = b'p' ∷ [];
  confirm = b'p' ∷ [];
  icon = [];
  varifycode = b'1' ∷ [];
}

writes-guard_example :
    IsMadeFor
      (calls_update_pwd (b'u' ∷ []) (b'p' ∷ []))
      (reset_pwd services (some request)).0
      (HasCode services request × (services.select_email (b'u' ∷ []) ≡ gives (some (b'm' ∷ []))))
    × (((reset_pwd services (some request)).1 ≡ reset) ↔ (
        HasCode services request
        × (services.select_email (b'u' ∷ []) ≡ gives (some (b'm' ∷ [])))
        × IsExecuted (services.execute_update (b'u' ∷ []) (b'p' ∷ []))))
    × IsMadeFor
        (reg_call services request)
        (user_register services (some request)).0
        ((request.passwd ≡ request.confirm) × HasCode services request)
writes-guard_example = writes-guard services request
