-- ===== src/Managers/Stream/Refinement.antt =====
-- The calls of StreamManager over SynapRPC, against those on a log.
use synap_sdk_go.Prelude.{
  ◌≡◌, refl, ◌∙◌, ap, sym, ◌<◌, ◌^◌, ℕ, zero, suc, ◌+◌, ◌≤◌, arith, length-append, pos, List, [],
  ◌∷◌, ◌++◌, All, map, take, drop, length, append_assoc, map-append, append-nil,
}
use native.Mathlib.Nat.{mod-eq_of_lt}
use synap_sdk_go.Bytes.{Bytes, codes}
use synap_sdk_go.Value.{str, int, int64}
use synap_sdk_go.Value.Text.{sprint}
use synap_sdk_go.Errors.{ok}
use synap_sdk_go.Command.{synap_rpc}
use synap_sdk_go.Command.Wire.{wire}
use synap_sdk_go.Payload.{Fields, string, unsigned, integer, no_fields}
use synap_sdk_go.Response.{decode}
use synap_sdk_go.Response.Shapes.{Shape}
use synap_sdk_go.Response.Assign.RoundTrip.{value_of, Fits, assign-value_of}
use synap_sdk_go.Resp3.Outcome.{value}
use synap_sdk_go.Client.Calls.{pure}
use synap_sdk_go.Client.Http.{World, Client}
use synap_sdk_go.Client.Runs.{run_each-refines}
use package.synap_sdk_go.Managers.{one, with_text, with_field}
use package.synap_sdk_go.Managers.Types.{event_shape}
use package.synap_sdk_go.Managers.Expiry.{HoldsNaturals}
use package.synap_sdk_go.Managers.StreamManager.{stream_publish, stream_consume}
use package.synap_sdk_go.Managers.Rpc.{answer, IsSentAs, ask_then-sent}
use package.synap_sdk_go.Managers.Stream.{
  Event, data_of, Operation, publish, read, returns, updates, returns_all, updates_all, sent_texts,
  run, run_all, KeepsLog,
}

-- Offsets and limits are exact in float64.
abbrev pub IsExact : Operation → Type 0
IsExact (publish event text) = Unit
IsExact (read offset limit) = (offset < 2 ^ 53) × (limit < 2 ^ 53)

updates-length :
    (mint : ℕ → Bytes → Bytes → Event) (o : Operation) (log : List Event)
    → length (updates mint o log) ≤ length log + 1
unfolding updates
updates-length mint (publish event text) log =
    omega (arith, length-append log (mint (length log) event text ∷ []))
updates-length mint (read offset limit) log = omega arith

-- The log grows by what is published, text by text.
module _ (mint : ℕ → Bytes → Bytes → Event)
    (kept : (n : ℕ) (event text : Bytes) → data_of (mint n event text) ≡ str text) where
  updates_all-texts :
      (os : List Operation) (log : List Event)
      → map data_of (updates_all mint os log) ≡ map data_of log ++ sent_texts os
  unfolding updates_all updates sent_texts
  updates_all-texts [] log = sym (append-nil (map data_of log))
  updates_all-texts (publish event text ∷ os) log =
      updates_all-texts os (log ++ mint (length log) event text ∷ [])
      ∙ ap (λ x. x ++ sent_texts os) (map-append data_of log (mint (length log) event text ∷ []))
      ∙ append_assoc (map data_of log) (data_of (mint (length log) event text) ∷ []) (sent_texts os)
      ∙ ap (λ x. map data_of log ++ x ∷ sent_texts os) (kept (length log) event text)
  updates_all-texts (read offset limit ∷ os) log = updates_all-texts os log

below_uint : (n : ℕ) → n < 2 ^ 63 → n < 2 ^ 64
below_uint n h = omega (arith, h)

drop-Fits :
    (n : ℕ) (es : List Event)
    → Fits (Shape.slice event_shape) es
    → Fits (Shape.slice event_shape) (drop n es)
unfolding Fits
drop-Fits zero es h = h
drop-Fits (suc n) [] h = h
drop-Fits (suc n) (e ∷ es) h = drop-Fits n es h.1

take-Fits :
    (n : ℕ) (es : List Event)
    → Fits (Shape.slice event_shape) es
    → Fits (Shape.slice event_shape) (take n es)
unfolding Fits
take-Fits zero es h = tt
take-Fits (suc n) [] h = h
take-Fits (suc n) (e ∷ es) h = (h.0, take-Fits n es h.1)

abbrev publish_payload : (room event text : Bytes) → Fields
publish_payload room event text =
    with_text "room" room (with_text "event" event (with_field "data" (string text) no_fields))

abbrev read_payload : (room : Bytes) (offset limit : ℕ) → Fields
read_payload room offset limit = with_text "room" room (
    with_text "subscriber_id" (codes "sdk-default") (
      with_field "from_offset" (unsigned offset)
        (with_field "limit" (integer (pos limit)) no_fields)))

module _ {S : Type 0} (w : World S) (c : Client) (rpc : c.transport ≡ synap_rpc)
    (plain : c.tx_client_id ≡ []) (exact : HoldsNaturals w.rt) (room : Bytes)
    (mint : ℕ → Bytes → Bytes → Event) (log : S → List Event)
    (server : KeepsLog w.rpc room mint log) where
  publish_wire :
      (event text : Bytes)
      → IsSentAs w c rpc "stream.publish"
          (publish_payload room event text)
          (wire "SPUBLISH" (str room ∷ str event ∷ str text ∷ []))
  unfolding IsSentAs sprint
  publish_wire event text = rw plain

  stream_publish-offset :
      (event text : Bytes) (n : ℕ) (s u : S)
      → n < 2 ^ 63
      → w.rpc (codes "SPUBLISH") (str room ∷ str event ∷ str text ∷ []) s
        ≡ (value (int64 (pos n)), u)
      → stream_publish w c room event (string text) s ≡ (value n, u)
  unfolding stream_publish
  stream_publish-offset event text n s u h e = rw (
    ask_then-sent w c rpc "stream.publish" (publish_payload room event text)
        (one "offset" (Shape.uint 64)) (wire "SPUBLISH" (str room ∷ str event ∷ str text ∷ []))
        (λ r. pure r.0) (publish_wire event text) s,
    e,
    mod-eq_of_lt (below_uint n h),
  )

  read_wire :
      (offset limit : ℕ)
      → offset < 2 ^ 53
      → limit < 2 ^ 53
      → IsSentAs w c rpc "stream.consume" (read_payload room offset limit) (
          wire "SREAD"
            (str room ∷ str (codes "sdk-default") ∷ int (pos offset) ∷ int (pos limit) ∷ []))
  unfolding IsSentAs sprint
  read_wire offset limit h k = rw (plain, exact.exact offset h, exact.exact limit k)

  read_events :
      (es : List Event)
      → Fits (Shape.slice event_shape) es
      → decode w.rt w.json
          (one "events" (Shape.slice event_shape))
          (answer w c rpc "stream.consume" (value_of (Shape.slice event_shape) es))
        ≡ ok (es, tt)
  unfolding stream_consume decode value_of Fits
  read_events es h =
      assign-value_of w.rt (one "events" (Shape.slice event_shape)) ([], tt) (es, tt) (refl, h, tt)

  stream_consume-events :
      (offset limit : ℕ) (es : List Event) (s u : S)
      → offset < 2 ^ 53
      → limit < 2 ^ 53
      → Fits (Shape.slice event_shape) es
      → w.rpc
          (codes "SREAD")
          (str room ∷ str (codes "sdk-default") ∷ int (pos offset) ∷ int (pos limit) ∷ [])
          s
        ≡ (value (value_of (Shape.slice event_shape) es), u)
      → stream_consume w c room offset (pos limit) s ≡ (value es, u)
  unfolding stream_consume
  stream_consume-events offset limit es s u h k f e = rw (
    ask_then-sent w c rpc "stream.consume" (read_payload room offset limit)
        (one "events" (Shape.slice event_shape))
        (wire "SREAD"
          (str room ∷ str (codes "sdk-default") ∷ int (pos offset) ∷ int (pos limit) ∷ []))
        (λ r. pure r.0) (read_wire offset limit h k) s,
    e,
    read_events es f,
  )

  run-refines :
      (o : Operation) (s : S)
      → IsExact o
      → length (log s) < 2 ^ 63
      → (u : S) × (run w c room o s ≡ (value (returns mint o (log s)), u))
        × (log u ≡ updates mint o (log s))
  unfolding run returns updates
  run-refines (publish event text) s h below =
      let (u, e, k) = server.on_publish event text s below in
      (u, rw (stream_publish-offset event text _ s u below e), k)
  run-refines (read offset limit) s h below =
      let (u, e, k) =
        server.on_read offset limit s (omega (arith, h.0)) (omega (arith, h.1))
          (omega (arith, below)) in
      (
        u,
        rw (
            stream_consume-events offset limit _ s u h.0 h.1
              (take-Fits limit (drop offset (log s))
                (drop-Fits offset (log s) (server.fits s (omega (arith, below)))))
              e),
        k,
      )

  run_all-refines :
      (os : List Operation) (s : S)
      → All IsExact os
      → length (log s) + length os < 2 ^ 63
      → (u : S) × (run_all w c room os s ≡ (value (returns_all mint os (log s)), u))
        × (log u ≡ updates_all mint os (log s))
  unfolding run_all returns_all updates_all
  run_all-refines os s h below =
      let (u, e, (t, k)) =
        run_each-refines (run w c room) (returns mint) (updates mint)
          (λ os' s' m. (All IsExact os' × (length m + length os' < 2 ^ 63)) × (log s' ≡ m))
          (λ o os' s' m h'.
            let (u', e', k') = run-refines o s' h'.0.0.0 (omega (arith, h'.0.1, ap length h'.1)) in
            (
              u',
              rw (← h'.1) e',
              (
                (h'.0.0.1, omega (arith, h'.0.1, updates-length mint o m)),
                k' ∙ ap (updates mint o) h'.1,
              ),
            ))
          os s (log s) ((h, below), refl) in
      (u, e, k)

  -- On a server that keeps the log of a room, whatever sequence of Publish of a text and Consume of
  -- that room a program outside of transactions calls over SynapRPC, each call succeeds and returns
  -- what the log says: Publish the offset of the event, and Consume the events from an offset on, at
  -- most as many as the limit, field by field. The data of the log grow by the texts that were
  -- published, byte for byte and in their order. Offsets and limits are below 2 ^ 53, where float64 is
  -- taken to be exact, and the log stays below 2 ^ 63 events.
  pub run_all-logs :
      (os : List Operation) (s : S)
      → All IsExact os
      → length (log s) + length os < 2 ^ 63
      → (u : S) × (run_all w c room os s ≡ (value (returns_all mint os (log s)), u))
        × (log u ≡ updates_all mint os (log s))
        × (map data_of (log u) ≡ map data_of (log s) ++ sent_texts os)
  run_all-logs os s h below =
      let (u, e, k) = run_all-refines os s h below in
      (u, e, k, ap (map data_of) k ∙ updates_all-texts mint server.text_kept os (log s))
