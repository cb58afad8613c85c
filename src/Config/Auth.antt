-- ===== src/Config/Auth.antt =====
-- Which credentials a client goes by: those of the last call of WithAuth or WithBasicAuth.
use synap_sdk_go.Prelude.{
  ◌≡◌, refl, Option, none, some, List, [], ◌∷◌, ◌++◌, ℤ, Bool-cases, inl, inr,
}
use synap_sdk_go.Bytes.{Bytes, codes, has_prefix}
use synap_sdk_go.Client.Http.{apply_auth}
use synap_sdk_go.Rpc.Values.{Thunder}
use synap_sdk_go.Rpc.Transport.{Credentials, user_pass, api_key}
use package.synap_sdk_go.Config.{
  Config, new_config, with_auth, with_basic_auth, with_timeout, new_client, new_rpc,
}

-- A call on a Config.
pub data Setting : Type 0 where
  auth : Bytes → Setting
  basic : (username password : Bytes) → Setting
  timeout : ℤ → Setting

unfoldable pub apply : Setting → Config → Config
unfolding with_auth with_basic_auth with_timeout
apply (auth token) c = with_auth token c
apply (basic username password) c = with_basic_auth username password c
apply (timeout d) c = with_timeout d c

unfoldable pub configure : List Setting → Config → Config
unfolding apply
configure [] c = c
configure (s ∷ ss) c = configure ss (apply s c)

pub data Login : Type 0 where
  anonymous : Login
  bearer : Bytes → Login
  user : (username password : Bytes) → Login

abbrev login_after : Login → Setting → Login
login_after l (auth token) = bearer token
login_after l (basic username password) = user username password
login_after l (timeout d) = l

-- The login of the last call that sets one.
unfoldable pub last_login : Login → List Setting → Login
last_login l [] = l
last_login l (s ∷ ss) = last_login (login_after l s) ss

-- What it stands for over HTTP, and over SynapRPC.
abbrev pub header_of : (Bytes → Bytes) → Login → Option Bytes
header_of base64 anonymous = none
header_of base64 (bearer []) = none
header_of base64 (bearer (b ∷ token)) = some (codes "Bearer " ++ b ∷ token)
header_of base64 (user [] password) = none
header_of base64 (user (b ∷ username) password) =
    some (codes "Basic " ++ base64 ((b ∷ username) ++ b':' ∷ password))

abbrev pub credentials_for : Login → Option Credentials
credentials_for anonymous = none
credentials_for (bearer []) = none
credentials_for (bearer (b ∷ token)) = some (api_key (b ∷ token))
credentials_for (user [] password) = none
credentials_for (user (b ∷ username) []) = none
credentials_for (user (b ∷ username) (p ∷ password)) =
    some (user_pass (b ∷ username) (p ∷ password))

abbrev token_of : Login → Bytes
token_of (bearer token) = token
token_of l = []

abbrev username_of : Login → Bytes
username_of (user username password) = username
username_of l = []

abbrev password_of : Login → Bytes
password_of (user username password) = password
password_of l = []

-- The fields of the configuration hold one login.
record Holds (l : Login) (c : Config) : Type 0 where
  token : c.auth_token ≡ token_of l
  username : c.username ≡ username_of l
  password : c.password ≡ password_of l

apply-Holds :
    (s : Setting) (l : Login) (c : Config) → Holds l c → Holds (login_after l s) (apply s c)
unfolding apply
apply-Holds (auth t) l c h = record { token = refl; username = refl; password = refl }
apply-Holds (basic u p) l c h = record { token = refl; username = refl; password = refl }
apply-Holds (timeout d) l c h = record {
  token = h.token;
  username = h.username;
  password = h.password;
}

configure-Holds :
    (ss : List Setting) (l : Login) (c : Config)
    → Holds l c
    → Holds (last_login l ss) (configure ss c)
unfolding configure last_login
configure-Holds [] l c h = h
configure-Holds (s ∷ ss) l c h =
    configure-Holds ss (login_after l s) (apply s c) (apply-Holds s l c h)

new_config-Holds : (url : Bytes) → Holds anonymous (new_config url)
unfolding new_config
new_config-Holds url = elim (Bool-cases (has_prefix url (codes "synap://"))) [
  | inl e ↦ rw e (record { token = refl; username = refl; password = refl })
  | inr e ↦ elim (Bool-cases (has_prefix url (codes "resp3://"))) [
    | inl f ↦ rw (e, f) (record { token = refl; username = refl; password = refl })
    | inr f ↦ rw (e, f) (record { token = refl; username = refl; password = refl })
  ]
]

apply_auth-Holds :
    (base64 : Bytes → Bytes) (l : Login) (c : Config)
    → Holds l c
    → apply_auth base64 (new_client c) ≡ header_of base64 l
unfolding apply_auth new_client
apply_auth-Holds base64 anonymous c h = rw (h.token, h.username)
apply_auth-Holds base64 (bearer []) c h = rw (h.token, h.username)
apply_auth-Holds base64 (bearer (b ∷ t)) c h = rw h.token
apply_auth-Holds base64 (user [] p) c h = rw (h.token, h.username)
apply_auth-Holds base64 (user (b ∷ u) p) c h = rw (h.token, h.username, h.password)

credentials-Holds :
    (T : Thunder) (l : Login) (c : Config)
    → Holds l c
    → (new_rpc T c).config.credentials ≡ credentials_for l
unfolding new_rpc
credentials-Holds T anonymous c h = rw (h.token, h.username)
credentials-Holds T (bearer []) c h = rw (h.token, h.username)
credentials-Holds T (bearer (b ∷ t)) c h = rw (h.token, h.username)
credentials-Holds T (user [] p) c h = rw (h.token, h.username)
credentials-Holds T (user (b ∷ u) []) c h = rw (h.token, h.username, h.password)
credentials-Holds T (user (b ∷ u) (p ∷ q)) c h = rw (h.token, h.username, h.password)

-- After NewConfig and any sequence of WithAuth, WithBasicAuth and WithTimeout, the client goes by
-- the last login alone, if one was set: over HTTP by its Authorization header, which an empty token or
-- username does without, and over SynapRPC by its credentials, which also need a password.
pub configure-last_login :
    (base64 : Bytes → Bytes) (T : Thunder) (url : Bytes) (ss : List Setting)
    → (apply_auth base64 (new_client (configure ss (new_config url)))
        ≡ header_of base64 (last_login anonymous ss))
      × ((new_rpc T (configure ss (new_config url))).config.credentials
          ≡ credentials_for (last_login anonymous ss))
configure-last_login base64 T url ss =
    let h = configure-Holds ss anonymous (new_config url) (new_config-Holds url) in
    (
      apply_auth-Holds base64 (last_login anonymous ss) (configure ss (new_config url)) h,
      credentials-Holds T (last_login anonymous ss) (configure ss (new_config url)) h,
    )
