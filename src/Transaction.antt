-- ===== src/Transaction.antt =====
-- transaction.go: TransactionManager and Tx.
pub mod Scope
pub mod Outside
pub mod Control
pub mod Atomic
use synap_sdk_go.Prelude.{List, [], ◌∷◌, String}
use synap_sdk_go.Bytes.{Bytes, codes}
use synap_sdk_go.Errors.{SynapError, synap}
use synap_sdk_go.Payload.{Reflected, Keyed, string, seq, map, no_keys, key}
use synap_sdk_go.Response.{Response, decode}
use synap_sdk_go.Response.Shapes
use synap_sdk_go.Response.Shapes.{Shape, El}
use synap_sdk_go.Client.{send_command}
use synap_sdk_go.Client.Calls.{Call, ◌>>=◌, pure, fail, within}
use synap_sdk_go.Client.Http.{World, Client, new_request_id}
use synap_sdk_go.Managers.{strings_of, or_invalid}

pub record Tx : Type 0 where
  pub client : Client
  pub client_id : Bytes

-- A copy of the client that carries the id.
unfoldable pub scope : Client → Bytes → Tx
scope c id = record { client = record c { tx_client_id = id }; client_id = id }

unfoldable pub resume : Client → Bytes → Tx
unfolding scope
resume c id = scope c id

-- ExecResult
abbrev pub exec_result : Shape
exec_result = Shape.struct (
    Shapes.Fields.field (codes "success") Shape.bool (
      Shapes.Fields.field (codes "aborted") Shape.bool
        (Shapes.Fields.field (codes "results") (Shape.slice Shape.any) Shapes.Fields.no_fields)))

abbrev no_keys_to_watch : SynapError
no_keys_to_watch = record {
  code = codes "InvalidArgument";
  message = codes "synap: Watch requires at least one key";
}

module _ {S : Type 0} (w : World S) where
  unfoldable pub control : Tx → String → Keyed → Call S Response
  unfolding send_command
  control tx command extra =
      send_command w tx.client (codes command)
        (map (key (codes "client_id") (string tx.client_id) extra))

  -- A control command whose reply is not looked at.
  unfoldable pub control_only : Tx → String → Keyed → Call S Unit
  unfolding control
  control_only tx command extra = do raw ← control tx command extra; pure tt

  unfoldable pub multi : Tx → Call S Unit
  unfolding control_only
  multi tx = control_only tx "transaction.multi" no_keys

  unfoldable pub discard : Tx → Call S Unit
  unfolding control_only
  discard tx = control_only tx "transaction.discard" no_keys

  unfoldable pub unwatch : Tx → Call S Unit
  unfolding control_only
  unwatch tx = control_only tx "transaction.unwatch" no_keys

  unfoldable pub watch : Tx → List Bytes → Call S Unit
  unfolding control_only
  watch tx [] = fail (synap no_keys_to_watch)
  watch tx (k ∷ ks) =
      control_only tx "transaction.watch" (key (codes "keys") (seq (strings_of (k ∷ ks))) no_keys)

  unfoldable pub exec : Tx → Call S (El exec_result)
  unfolding control decode
  exec tx = do
    raw ← control tx "transaction.exec" no_keys
    or_invalid w "transaction.exec" (decode w.rt w.json exec_result raw)

  unfoldable pub begin : Client → Call S Tx
  unfolding scope new_request_id
  begin c = do
    id ← within "synap: generate transaction client_id" (new_request_id w)
    pure (scope c id)

  -- TransactionManager.Multi
  unfoldable pub open_multi : Client → Call S Tx
  unfolding begin multi
  open_multi c = do tx ← begin c; done ← multi tx; pure tx
