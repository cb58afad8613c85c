-- ===== src/Subscriptions.antt =====
-- The subscriptions of pubsub.go (Observe) and kv.go (Watch): a channel with room for 64 messages
-- between the hook of a push connection and the consumer, and a shutdown that runs once.
pub mod Order
pub mod Drops
pub mod Observe
pub mod Frames
use synap_sdk_go.Prelude.{
  ℕ, ◌+◌, ◌≡◌, Bool, true, false, List, [], ◌∷◌, ◌++◌, ltb, length, if◌then◌else◌,
}

abbrev pub capacity : ℕ
capacity = 64

-- The channel, whether the once has run, how often it called cancel, and whether a goroutine has
-- panicked. `sent` has the messages of all runs of the hook, and `received` those that the consumer
-- took, both in the order of time.
pub record Stream (M : Type 0) : Type 0 where
  pub buffered : List M
  pub closed : Bool
  pub done : Bool
  pub cancels : ℕ
  pub panicked : Bool
  pub sent : List M
  pub received : List M

module _ {M : Type 0} where
  abbrev pub new_stream : Stream M
  new_stream = record {
    buffered = [];
    closed = false;
    done = false;
    cancels = 0;
    panicked = false;
    sent = [];
    received = [];
  }

  -- The message is put at the end where there is room, and dropped where there is none. To send on a
  -- closed channel panics.
  abbrev put : Bool → M → Stream M → Stream M
  put true m s = record s { panicked = true }
  put false m s =
      if ltb (length s.buffered) capacity then record s { buffered = s.buffered ++ m ∷ [] } else s

  -- select { case out <- msg: default: }
  unfoldable pub offer : M → Stream M → Stream M
  offer m s = put s.closed m (record s { sent = s.sent ++ m ∷ [] })

  abbrev take_first : List M → Stream M → Stream M
  take_first [] s = s
  take_first (m ∷ ms) s = record s { buffered = ms; received = s.received ++ m ∷ [] }

  -- <-out, where a message is there
  unfoldable pub receive : Stream M → Stream M
  receive s = take_first s.buffered s

  -- Closing a closed channel panics.
  abbrev close_channel : Bool → Stream M → Stream M
  close_channel true s = record s { panicked = true }
  close_channel false s = record s { closed = true }

  abbrev run_once : Bool → Stream M → Stream M
  run_once true s = s
  run_once false s = close_channel s.closed (record s { done = true; cancels = s.cancels + 1 })

  -- once.Do(func() { cancel(); close(out) })
  unfoldable pub shutdown : Stream M → Stream M
  shutdown s = run_once s.done s

-- The goroutines of a subscription in any order: the reader of the connection runs the hook, the
-- consumer receives, and the stop that was returned, or the end of the context, shuts down.
pub data Step {M : Type 0} (s : Stream M) : Stream M → Type 0 where
  pushed : (m : M) → Step s (offer m s)
  taken : Step s (receive s)
  stopped : Step s (shutdown s)

pub data Reach {M : Type 0} : Stream M → Type 0 where
  opened : Reach new_stream
  next : {s t : Stream M} → Reach s → Step s t → Reach t
