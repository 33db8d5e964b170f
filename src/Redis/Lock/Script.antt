-- ===== src/Redis/Lock/Script.antt =====
-- What `releaseLock` makes Redis do by its script.
use distributed_instant_mess.Base.{◌≡◌, ap, ◌∙◌, false, some, refl}
use distributed_instant_mess.Base.Text.{Text, text_eq, text_eq_refl}
use distributed_instant_mess.Log.Numbers.{pos}
use distributed_instant_mess.Redis.{
  integer, redis_eval_unlock, redis_del, Server, text, script_after, unlock_script, IsRedis,
}

module _ (V : Server) (I : IsRedis V) where
  -- With the text of the caller under the key, the script is a DEL of it.
  pub unlock-own :
      (s : V.State) (k v : Text)
      → I.entry s k ≡ text v
      → V.command s (redis_eval_unlock k v) ≡ V.command s (redis_del k)
  unfolding unlock_script
  unlock-own s k v e =
      I.eval_runs s k v
      ∙ ap (script_after (λ s'. V.command s' (redis_del k)) v) (I.get_text s k v e)
      ∙ rw (text_eq_refl v) refl

  -- With another text it changes nothing.
  pub unlock-other :
      (s : V.State) (k v w : Text)
      → I.entry s k ≡ text w
      → text_eq w v ≡ false
      → V.command s (redis_eval_unlock k v) ≡ (some (integer (pos 0)), s)
  unfolding unlock_script
  unlock-other s k v w e differs =
      I.eval_runs s k v
      ∙ ap (script_after (λ s'. V.command s' (redis_del k)) v) (I.get_text s k w e)
      ∙ rw differs refl
