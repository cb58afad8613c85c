-- ===== src/Managers/SetManager.antt =====
-- SetManager of set.go.
use synap_sdk_go.Prelude.{Bool, List, ℤ}
use synap_sdk_go.Bytes.{Bytes}
use synap_sdk_go.Payload.{no_fields}
use synap_sdk_go.Response.Shapes.{Shape}
use synap_sdk_go.Client.Calls.{Call, ◌>>=◌, pure}
use synap_sdk_go.Client.Http.{World, Client}
use package.synap_sdk_go.Managers.{ask, one, with_text, with_texts}

module _ {S : Type 0} (w : World S) (c : Client) where
  unfoldable pub set_add : (key : Bytes) (members : List Bytes) → Call S ℤ
  unfolding ask
  set_add key members = do
    result ←
        ask w c "set.add" (with_text "key" key (with_texts "members" members no_fields))
          (one "added" Shape.int)
    pure result.0

  unfoldable pub set_members : Bytes → Call S (List Bytes)
  unfolding ask
  set_members key = do
    result ←
        ask w c "set.members" (with_text "key" key no_fields)
          (one "members" (Shape.slice Shape.string))
    pure result.0

  unfoldable pub set_is_member : (key member : Bytes) → Call S Bool
  unfolding ask
  set_is_member key member = do
    result ←
        ask w c "set.ismember" (with_text "key" key (with_text "member" member no_fields))
          (one "is_member" Shape.bool)
    pure result.0

  unfoldable pub set_remove : (key : Bytes) (members : List Bytes) → Call S ℤ
  unfolding ask
  set_remove key members = do
    result ←
        ask w c "set.rem" (with_text "key" key (with_texts "members" members no_fields))
          (one "removed" Shape.int)
    pure result.0

  unfoldable pub set_card : Bytes → Call S ℤ
  unfolding ask
  set_card key = do
    result ← ask w c "set.card" (with_text "key" key no_fields) (one "size" Shape.int)
    pure result.0
