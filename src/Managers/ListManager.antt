-- ===== src/Managers/ListManager.antt =====
-- ListManager of list.go.
use synap_sdk_go.Prelude.{List, ℤ, String}
use synap_sdk_go.Bytes.{Bytes}
use synap_sdk_go.Payload.{no_fields, integer}
use synap_sdk_go.Response.Shapes.{Shape}
use synap_sdk_go.Client.Calls.{Call, ◌>>=◌, pure}
use synap_sdk_go.Client.Http.{World, Client}
use package.synap_sdk_go.Managers.{ask, one, optional, positive, with_field, with_text, with_texts}

module _ {S : Type 0} (w : World S) (c : Client) where
  -- LPush and RPush
  unfoldable push : String → Bytes → List Bytes → Call S ℤ
  unfolding ask
  push command key values = do
    result ←
        ask w c command (with_text "key" key (with_texts "values" values no_fields))
          (one "length" Shape.int)
    pure result.0

  unfoldable pub list_lpush : (key : Bytes) (values : List Bytes) → Call S ℤ
  unfolding push
  list_lpush key values = push "list.lpush" key values

  unfoldable pub list_rpush : (key : Bytes) (values : List Bytes) → Call S ℤ
  unfolding push
  list_rpush key values = push "list.rpush" key values

  -- LPop and RPop
  unfoldable pop : String → Bytes → ℤ → Call S (List Bytes)
  unfolding ask
  pop command key count = do
    result ←
        ask w c command (with_text "key" key (optional "count" (positive count) no_fields))
          (one "values" (Shape.slice Shape.string))
    pure result.0

  unfoldable pub list_lpop : (key : Bytes) (count : ℤ) → Call S (List Bytes)
  unfolding pop
  list_lpop key count = pop "list.lpop" key count

  unfoldable pub list_rpop : (key : Bytes) (count : ℤ) → Call S (List Bytes)
  unfolding pop
  list_rpop key count = pop "list.rpop" key count

  unfoldable pub list_range : (key : Bytes) (start stop : ℤ) → Call S (List Bytes)
  unfolding ask
  list_range key start stop = do
    result ←
        ask w c "list.range"
          (with_text "key" key
            (with_field "start" (integer start) (with_field "stop" (integer stop) no_fields)))
          (one "values" (Shape.slice Shape.string))
    pure result.0

  unfoldable pub list_len : Bytes → Call S ℤ
  unfolding ask
  list_len key = do
    result ← ask w c "list.len" (with_text "key" key no_fields) (one "length" Shape.int)
    pure result.0
