-- ===== src/Managers/KvStore.antt =====
-- KVStore of kv.go, without its watches.
use synap_sdk_go.Prelude.{zero, suc, Bool, [], ℤ, pos, negsuc, if◌then◌else◌}
use synap_sdk_go.Bytes.{Bytes, codes}
use synap_sdk_go.Value.Text.{Runtime}
use synap_sdk_go.Payload.{Reflected, no_fields, struct, ref, unsigned, nil_pointer}
use synap_sdk_go.Response.{Response, decode, is_null}
use synap_sdk_go.Response.Shapes.{Shape, El}
use synap_sdk_go.Client.{send_command}
use synap_sdk_go.Client.Calls.{Call, ◌>>=◌, pure}
use synap_sdk_go.Client.Http.{World, Client}
use package.synap_sdk_go.Managers.Types.{kv_stats_shape}
use package.synap_sdk_go.Managers.{ask, tell, or_invalid, one, with_field, with_text}

-- A time to live that is not positive is left out; nanoseconds are cut to seconds.
abbrev pub ttl_of : Runtime → ℤ → Reflected
ttl_of rt (pos zero) = nil_pointer
ttl_of rt (pos (suc n)) = ref (unsigned (rt.whole_seconds (suc n)))
ttl_of rt (negsuc n) = nil_pointer

module _ {S : Type 0} (w : World S) (c : Client) where
  unfoldable pub kv_set : (key value : Bytes) (ttl : ℤ) → Call S Unit
  unfolding tell
  kv_set key value ttl =
      tell w c "kv.set" (
        with_text "key" key
          (with_text "value" value (with_field "ttl" (ttl_of w.rt ttl) no_fields)))

  -- The reply itself is the value; nil for a key that is not there.
  unfoldable pub text_of_reply : Response → Call S Bytes
  unfolding is_null decode
  text_of_reply raw =
      if is_null raw then pure [] else or_invalid w "kv.get" (decode w.rt w.json Shape.string raw)

  unfoldable pub kv_get : Bytes → Call S Bytes
  unfolding send_command text_of_reply
  kv_get key = do
    raw ← send_command w c (codes "kv.get") (struct (with_text "key" key no_fields))
    text_of_reply raw

  unfoldable pub kv_delete : Bytes → Call S Bool
  unfolding ask
  kv_delete key = do
    result ← ask w c "kv.del" (with_text "key" key no_fields) (one "deleted" Shape.bool)
    pure result.0

  unfoldable pub kv_exists : Bytes → Call S Bool
  unfolding ask
  kv_exists key = do
    result ← ask w c "kv.exists" (with_text "key" key no_fields) (one "exists" Shape.bool)
    pure result.0

  unfoldable pub kv_incr : Bytes → Call S ℤ
  unfolding ask
  kv_incr key = do
    result ← ask w c "kv.incr" (with_text "key" key no_fields) (one "value" Shape.int)
    pure result.0

  unfoldable pub kv_decr : Bytes → Call S ℤ
  unfolding ask
  kv_decr key = do
    result ← ask w c "kv.decr" (with_text "key" key no_fields) (one "value" Shape.int)
    pure result.0

  unfoldable pub kv_stats : Call S (El kv_stats_shape)
  unfolding ask
  kv_stats = ask w c "kv.stats" no_fields kv_stats_shape
