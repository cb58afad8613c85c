-- ===== src/Tests/Settings.antt =====
-- The configuration, and the stream of a subscription.
use mathlib.Core.List.{Memᴰ}
use synap_sdk_go.Prelude.{
  Bool, ◌↔◌, ◌≢◌, ◌==◌, ◌||◌, All, ◌≡◌, refl, true, List, [], ◌∷◌, ◌++◌, pos, take, arith, ℕ,
  negsuc, none, some, false,
}
use synap_sdk_go.Bytes.{Bytes, codes, bytes_eq}
use synap_sdk_go.Command.{synap_rpc, resp3}
use synap_sdk_go.Client.Http.{apply_auth}
use synap_sdk_go.Config.{new_config, parse_host_port, new_client, new_rpc}
use synap_sdk_go.Config.Address.{authority, new_config-address}
use synap_sdk_go.Config.Auth.{
  Setting, auth, basic, timeout, configure, anonymous, user, last_login, header_of, credentials_for,
  configure-last_login,
}
use synap_sdk_go.Subscriptions.{
  capacity, Stream, new_stream, offer, receive, shutdown, pushed, taken, stopped, opened, next,
}
use synap_sdk_go.Subscriptions.Order.{Inv, Reach-Inv}
use synap_sdk_go.Subscriptions.Drops.{offer_all, offer_all-take}
use synap_sdk_go.Payload.Tags.{json_field_name, tag_of, json_field_name-tag_of}
use package.synap_sdk_go.Tests.Wire.{trees_wire}

-- Without a port, with port 0, with a port that is no number, with a sign, and with a bare
-- IPv6 address, which is split at its last colon.
default_port : parse_host_port (codes "db/x:1") 15501 ≡ (codes "db", pos 15501)
unfolding parse_host_port
default_port = refl

zero_port : parse_host_port (codes "db:0") 15501 ≡ (codes "db", pos 15501)
unfolding parse_host_port
zero_port = refl

bad_port : parse_host_port (codes "db:x1") 15501 ≡ (codes "db", pos 15501)
unfolding parse_host_port
bad_port = refl

negative_port : parse_host_port (codes "db:-2z") 15501 ≡ (codes "db", negsuc 1)
unfolding parse_host_port
negative_port = refl

bare_ipv6 : parse_host_port (codes "[::1]") 15501 ≡ (codes "[:", pos 1)
unfolding parse_host_port
bare_ipv6 = refl

new_config-address_example :
    (let c = new_config (codes "synap://" ++ authority (codes "::1") 7000 (codes "/db")) in
      (c.transport ≡ synap_rpc) × (c.host ≡ codes "::1") × (c.port ≡ pos 7000))
    × (let c = new_config (codes "resp3://" ++ authority (codes "::1") 7000 (codes "/db")) in
        (c.transport ≡ resp3) × (c.host ≡ codes "::1") × (c.port ≡ pos 7000))
new_config-address_example =
    new_config-address (codes "::1") (codes "/db") 7000
      (λ e. omega arith, (λ e. omega arith, (λ e. omega arith, tt))) refl (omega arith)
      (omega arith)

abbrev settings : List Setting
settings = auth (codes "t") ∷ basic (codes "u") (codes "p") ∷ timeout (pos 5) ∷ []

configure-last_login_example :
    (apply_auth (λ s. s) (new_client (configure settings (new_config (codes "synap://db"))))
      ≡ header_of (λ s. s) (last_login anonymous settings))
    × ((new_rpc trees_wire
          (configure settings (new_config (codes "synap://db")))).config.credentials
        ≡ credentials_for (last_login anonymous settings))
configure-last_login_example =
    configure-last_login (λ s. s) trees_wire (codes "synap://db") settings

settings_login : last_login anonymous settings ≡ user (codes "u") (codes "p")
unfolding last_login
settings_login = refl

offer_all-take_example :
    (offer_all (codes "first and second") new_stream).buffered
    ≡ take capacity (codes "first and second")
offer_all-take_example = offer_all-take (codes "first and second")

-- The hook runs twice, one message is taken, both ends shut down, and the hook runs once more.
abbrev run : Stream ℕ
unfolding offer receive shutdown
run = offer 3 (shutdown (shutdown (receive (offer 2 (offer 1 new_stream)))))

Reach-Inv_example : Inv run
unfolding run
Reach-Inv_example = Reach-Inv (
    next (next (next (next (next (next opened (pushed 1)) (pushed 2)) taken) stopped) stopped)
      (pushed 3))

-- A hook that still runs after the channel is closed panics.
run_left : run.received ++ run.buffered ≡ 1 ∷ 2 ∷ []
unfolding run
run_left = refl

run_cancels : run.cancels ≡ 1
unfolding run
run_cancels = refl

run_panics : run.panicked ≡ true
unfolding run
run_panics = refl

abbrev has_comma : Bytes → Bool
has_comma [] = false
has_comma (c ∷ s) = c == b',' || has_comma s

has_comma-ne : (s : Bytes) → has_comma s ≡ false → All (λ c. c ≢ b',') s
has_comma-ne [] h = tt
has_comma-ne (c ∷ s) h = ((λ e. ground (arith, h, e)), has_comma-ne s (ground (arith, h)))

-- The name "-" with two options, omitempty the second.
json_field_name-tag_of_example :
    (omitted : Bool) × ((omitted ≡ true)
      ↔ Memᴰ (codes "omitempty") (codes "string" ∷ codes "omitempty" ∷ []))
    × (json_field_name (codes "Key") (tag_of (codes "-") (codes "string" ∷ codes "omitempty" ∷ []))
        ≡ some (codes "-", omitted))
unfolding bytes_eq
json_field_name-tag_of_example =
    json_field_name-tag_of (codes "Key") (codes "-") (codes "string" ∷ codes "omitempty" ∷ [])
      (has_comma-ne (codes "-") refl)
      (has_comma-ne (codes "string") refl, (has_comma-ne (codes "omitempty") refl, tt))

second_option : json_field_name (codes "Key") (codes ",string,omitempty") ≡ some (codes "Key", true)
unfolding json_field_name
second_option = refl

skipped_tag : json_field_name (codes "Key") (codes "-") ≡ none
unfolding json_field_name
skipped_tag = refl

untagged : json_field_name (codes "Key") [] ≡ some (codes "Key", false)
unfolding json_field_name
untagged = refl
