-- ===== src/Security/Secrets.antt =====
-- paper_live/secrets/broker.py: the policy for credentials, the broker and the in-memory store.
use paper_live.Base.{
  ◌||◌, ◌&&◌, not, List, [], ◌∷◌, String, ◌==◌, Result, Kind, raise_if, or_raise, ◌>>◌,
}
use paper_live.Base.Dict.{Dict, get, string_eq}
use paper_live.Base.Dict
use paper_live.Base.Text.{concat}
use paper_live.Environment.{is_member}

-- `SecretPolicy`
pub record SecretPolicy : Type 0 where
  pub live_secret_ids : List String

unfoldable pub authorize : String → String → String → SecretPolicy → Result (Unit {0})
authorize secret_id mode capability policy = do
  raise_if
      ((mode == "PAPER_SANDBOX" || mode == "VIRTUAL_BACKTEST")
        && is_member secret_id policy.live_secret_ids)
      Kind.secret_denied (concat ("live credential denied in " ∷ mode ∷ []))
  raise_if
      ((capability == "order.create" || capability == "order.cancel") && not (mode == "REAL_LIVE"))
      Kind.secret_denied
      (concat ("live trading credential denied outside REAL_LIVE: " ∷ capability ∷ []))

-- `SecretBroker`; its store is any object with `get`, here the function that `get` is.
pub record SecretBroker : Type 0 where
  pub store : String → Result String
  pub policy : SecretPolicy

unfoldable pub resolve : String → String → String → SecretBroker → Result String
resolve secret_id mode capability broker = do
  authorize secret_id mode capability broker.policy
  broker.store secret_id

-- `InMemorySecretStore`
abbrev pub InMemorySecretStore : Type 0
InMemorySecretStore = Dict String String

unfoldable pub lookup_secret : InMemorySecretStore → String → Result String
lookup_secret values secret_id = or_raise (get secret_id values) Kind.key_error secret_id

unfoldable pub put_secret : String → String → InMemorySecretStore → InMemorySecretStore
put_secret secret_id value values = Dict.put secret_id value values
