-- ===== src/Managers/Stream.antt =====
-- StreamManager over SynapRPC, on a server that keeps the log of a room.
pub mod Refinement
use synap_sdk_go.Prelude.{◌≡◌, ◌<◌, ◌≤◌, ◌^◌, ℕ, pos, List, [], ◌∷◌, ◌++◌, take, drop, length}
use synap_sdk_go.Bytes.{Bytes, codes}
use synap_sdk_go.Value.{Value, str, int, int64}
use synap_sdk_go.Payload.{string}
use synap_sdk_go.Resp3.Outcome.{value}
use synap_sdk_go.Response.Shapes.{Shape, El}
use synap_sdk_go.Response.Assign.RoundTrip.{value_of, Fits}
use synap_sdk_go.Client.Calls.{Call, ◌>>=◌, pure}
use synap_sdk_go.Client.Runs.{returned_by, updated_by, run_each}
use synap_sdk_go.Client.Http.{World, Client}
use package.synap_sdk_go.Managers.Types.{event_shape}
use package.synap_sdk_go.Managers.StreamManager.{stream_publish, stream_consume}

-- An offset, a type, the data and perhaps a time.
abbrev pub Event : Type 0
Event = El event_shape

abbrev pub data_of : Event → Value
data_of e = e.1.1.0

-- The calls of a program on one room; what it publishes are texts.
pub data Operation : Type 0 where
  publish : (event text : Bytes) → Operation
  read : (offset limit : ℕ) → Operation

-- What a call returns.
pub data Returned : Type 0 where
  at_offset : ℕ → Returned
  events : List Event → Returned

-- The promise: a log, the oldest event first. `mint` is what the server makes of the n-th event.
module _ (mint : ℕ → Bytes → Bytes → Event) where
  unfoldable pub returns : Operation → List Event → Returned
  returns (publish event text) log = at_offset (length log)
  returns (read offset limit) log = events (take limit (drop offset log))

  unfoldable pub updates : Operation → List Event → List Event
  updates (publish event text) log = log ++ mint (length log) event text ∷ []
  updates (read offset limit) log = log

  unfoldable pub returns_all : List Operation → List Event → List Returned
  unfolding returned_by returns updates
  returns_all os log = returned_by returns updates os log

  unfoldable pub updates_all : List Operation → List Event → List Event
  unfolding updated_by updates
  updates_all os log = updated_by updates os log

unfoldable pub sent_texts : List Operation → List Value
sent_texts [] = []
sent_texts (publish event text ∷ os) = str text ∷ sent_texts os
sent_texts (read offset limit ∷ os) = sent_texts os

-- The calls of the SDK.
module _ {S : Type 0} (w : World S) (c : Client) (room : Bytes) where
  unfoldable pub run : Operation → Call S Returned
  unfolding stream_publish stream_consume
  run (publish event text) = do
    offset ← stream_publish w c room event (string text)
    pure (at_offset offset)
  run (read offset limit) = do es ← stream_consume w c room offset (pos limit); pure (events es)

  unfoldable pub run_all : List Operation → Call S (List Returned)
  unfolding run_each run
  run_all os = run_each run os

-- Documented of the server: SPUBLISH puts an event with the given text behind the log of the room and
-- answers its offset, which counts from 0, and SREAD answers the fields of at most so many events from
-- an offset on. Offsets and limits are int64, which bounds the log, and what is in it fits the types of
-- the fields.
pub record KeepsLog {S : Type 0} (rpc : Bytes → List Value → Call S Value) (room : Bytes)
    (mint : ℕ → Bytes → Bytes → Event) (log : S → List Event) : Type 0 where
  pub text_kept : (n : ℕ) (event text : Bytes) → data_of (mint n event text) ≡ str text
  pub fits : (s : S) → length (log s) ≤ 2 ^ 63 → Fits (Shape.slice event_shape) (log s)
  pub on_publish :
      (event text : Bytes) (s : S)
      → length (log s) < 2 ^ 63
      → (u : S) × (rpc (codes "SPUBLISH") (str room ∷ str event ∷ str text ∷ []) s
          ≡ (value (int64 (pos (length (log s)))), u))
        × (log u ≡ log s ++ mint (length (log s)) event text ∷ [])
  pub on_read :
      (offset limit : ℕ) (s : S)
      → offset < 2 ^ 63
      → limit < 2 ^ 63
      → length (log s) ≤ 2 ^ 63
      → (u : S) × (rpc
            (codes "SREAD")
            (str room ∷ str (codes "sdk-default") ∷ int (pos offset) ∷ int (pos limit) ∷ [])
            s
          ≡ (value (value_of (Shape.slice event_shape) (take limit (drop offset (log s)))), u))
        × (log u ≡ log s)
