-- ===== src/Rpc/Transport.antt =====
-- SynapRpcTransport of transport_rpc.go over Thunder's client: newSynapRpcTransport, withCredentials,
-- dial, ensureConnected, Execute and Close. Clients are numbered in the order of the dials; the log
-- has what was done with them, the newest first, and the network answers by what was done before.
pub mod Balance
pub mod Kept
pub mod Execute
pub mod Course
pub mod Once
use synap_sdk_go.Prelude.{
  ℕ, ◌+◌, ◌≡◌, Bool, true, false, Option, none, some, ℤ, List, [], ◌∷◌, ◌++◌, if◌then◌else◌, String,
  map,
}
use synap_sdk_go.Bytes.{Bytes, codes}
use synap_sdk_go.Bytes.Decimal.{format_int}
use synap_sdk_go.Value.{Value}
use synap_sdk_go.Value.Text.{Runtime}
use synap_sdk_go.Errors.{Error, synap, Result, ok, err, server_error}
use synap_sdk_go.Resp3.Outcome.{Outcome, value, error, out_of_fuel}
use synap_sdk_go.Client.Calls.{Call, ◌>>=◌, pure, fail}
use package.synap_sdk_go.Rpc.Values.{Thunder, to_wire, from_wire}

pub data Credentials : Type 0 where
  user_pass : Bytes → Bytes → Credentials
  api_key : Bytes → Credentials

-- thunder.ClientConfig
pub record ClientConfig : Type 0 where
  pub connect_timeout : ℤ
  pub call_timeout : ℤ
  pub client_name : Bytes
  pub credentials : Option Credentials

-- A dial says whether it gave a client, and which number that one has.
pub data Event (T : Thunder) : Type 0 where
  dialled : ℕ → Bool → Event T
  hooked closed : ℕ → Event T
  called : ℕ → Bytes → List T.W → Event T

-- What a call of Thunder returns; an error is its text.
pub data Answer (A : Type 0) : Type 0 where
  refused : Bytes → Answer A
  given : A → Answer A

-- What thunder.Connect, IsAlive and Call answer after a history.
pub record Network (T : Thunder) : Type 0 where
  pub connect : Bytes → ClientConfig → List (Event T) → Answer Unit
  pub is_alive : ℕ → List (Event T) → Bool
  pub call : ℕ → Bytes → List T.W → List (Event T) → Answer T.W

pub record Session (T : Thunder) : Type 0 where
  pub endpoint : Bytes
  pub config : ClientConfig
  pub client : Option ℕ
  pub dials : ℕ
  pub log : List (Event T)

module _ (T : Thunder) where
  -- newSynapRpcTransport
  unfoldable pub new_transport : Bytes → ℤ → ℤ → Session T
  unfolding format_int
  new_transport host port timeout = record {
    endpoint = codes "synap://" ++ (host ++ b':' ∷ format_int port);
    config = record {
      connect_timeout = timeout;
      call_timeout = timeout;
      client_name = codes "synap-go-sdk";
      credentials = none;
    };
    client = none;
    dials = 0;
    log = [];
  }

  abbrev token_or : Bytes → Option Credentials → Option Credentials
  token_or [] old = old
  token_or (b ∷ token) old = some (api_key (b ∷ token))

  -- A username and a password that are both there go before a token.
  abbrev credentials_of :
      (token username password : Bytes) → Option Credentials → Option Credentials
  credentials_of token (u ∷ username) (p ∷ password) old =
      some (user_pass (u ∷ username) (p ∷ password))
  credentials_of token username password old = token_or token old

  unfoldable pub with_credentials : (token username password : Bytes) → Session T → Session T
  with_credentials token username password t = record t {
    config = record t.config {
      credentials = credentials_of token username password t.config.credentials;
    };
  }

  -- c.Close()
  abbrev pub close_client : ℕ → Session T → Session T
  close_client n t = record t { log = closed n ∷ t.log }

  -- t.client.Close(), t.client = nil
  abbrev drop_client : Option ℕ → Session T → Session T
  drop_client none t = t
  drop_client (some n) t = record t { client = none; log = closed n ∷ t.log }

  unfoldable pub close : Session T → Session T
  close t = drop_client t.client t

module _ (T : Thunder) (net : Network T) where
  abbrev pub dial_failed : Bytes → Bytes → Error
  dial_failed endpoint text =
      synap (server_error (codes "SynapRPC connect " ++ (endpoint ++ (codes ": " ++ text))))

  abbrev pub dial_answer : Answer Unit → Session T → Outcome ℕ × Session T
  dial_answer (refused text) t = (
    error (dial_failed t.endpoint text),
    record t { dials = t.dials + 1; log = dialled t.dials false ∷ t.log },
  )
  dial_answer (given u) t =
      (value t.dials, record t { dials = t.dials + 1; log = dialled t.dials true ∷ t.log })

  unfoldable pub dial : Call (Session T) ℕ
  dial t = dial_answer (net.connect t.endpoint t.config t.log) t

  abbrev keep_client : ℕ → Call (Session T) ℕ
  keep_client n t = (value n, record t { client = some n })

  -- Without a client that lives: the old one, if there is one, is closed, and a new one dialled.
  unfoldable pub redial : Call (Session T) ℕ
  unfolding dial close
  redial t = (dial >>= keep_client) (close T t)

  abbrev connected : Option ℕ → Call (Session T) ℕ
  unfolding redial
  connected none t = redial t
  connected (some n) t = if net.is_alive n t.log then (value n, t) else redial t

  unfoldable pub ensure_connected : Call (Session T) ℕ
  unfolding redial
  ensure_connected t = connected t.client t

  abbrev pub call_answer : Answer T.W → Call (Session T) T.W
  call_answer (refused text) t = (error (synap (server_error text)), t)
  call_answer (given w) t = (value w, t)

  -- c.Call, with its error as a server error.
  unfoldable pub call : ℕ → Bytes → List T.W → Call (Session T) T.W
  call n cmd args t =
      call_answer (net.call n cmd args t.log) (record t { log = called n cmd args ∷ t.log })

  abbrev read_or_stop : Option Value → Outcome Value
  read_or_stop none = out_of_fuel
  read_or_stop (some v) = value v

  unfoldable pub execute : Runtime → Bytes → List Value → Call (Session T) Value
  unfolding ensure_connected call to_wire from_wire
  execute rt cmd args = do
    n ← ensure_connected
    result ← call n cmd (map (to_wire rt T) args)
    λ t. (read_or_stop (from_wire rt T result), t)
