-- ===== src/Managers/HashManager.antt =====
-- HashManager of hash.go.
use synap_sdk_go.Prelude.{Bool, Option, none, some, List, [], ◌∷◌, ℤ}
use synap_sdk_go.Bytes.{Bytes}
use synap_sdk_go.Payload.{no_fields}
use synap_sdk_go.Response.Shapes.{Shape}
use synap_sdk_go.Client.Calls.{Call, ◌>>=◌, pure}
use synap_sdk_go.Client.Http.{World, Client}
use package.synap_sdk_go.Managers.{ask, one, with_text, with_texts}

abbrev pub text_or_empty : Option Bytes → Bytes
text_or_empty none = []
text_or_empty (some s) = s

module _ {S : Type 0} (w : World S) (c : Client) where
  unfoldable pub hash_set : (key field value : Bytes) → Call S Bool
  unfolding ask
  hash_set key field value = do
    result ←
        ask w c "hash.set"
          (with_text "key" key (with_text "field" field (with_text "value" value no_fields)))
          (one "success" Shape.bool)
    pure result.0

  unfoldable pub hash_get : (key field : Bytes) → Call S Bytes
  unfolding ask
  hash_get key field = do
    result ←
        ask w c "hash.get" (with_text "key" key (with_text "field" field no_fields))
          (one "value" (Shape.ptr Shape.string))
    pure (text_or_empty result.0)

  unfoldable pub hash_get_all : Bytes → Call S (List (Bytes × Bytes))
  unfolding ask
  hash_get_all key = do
    result ←
        ask w c "hash.getall" (with_text "key" key no_fields)
          (one "fields" (Shape.dict Shape.string))
    pure result.0

  unfoldable pub hash_del : (key field : Bytes) → Call S ℤ
  unfolding ask
  hash_del key field = do
    result ←
        ask w c "hash.del"
          (with_text "key" key
            (with_text "field" field (with_texts "fields" (field ∷ []) no_fields)))
          (one "deleted" Shape.int)
    pure result.0

  unfoldable pub hash_exists : (key field : Bytes) → Call S Bool
  unfolding ask
  hash_exists key field = do
    result ←
        ask w c "hash.exists" (with_text "key" key (with_text "field" field no_fields))
          (one "exists" Shape.bool)
    pure result.0
