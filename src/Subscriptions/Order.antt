-- ===== src/Subscriptions/Order.antt =====
-- What a subscription guarantees, however its goroutines interleave.
use synap_sdk_go.Prelude.{
  ◌+◌, ◌≤◌, ◌≡◌, refl, Bool, true, false, List, [], ◌∷◌, ◌++◌, ltb, length, length-append,
  if◌then◌else◌, not, ◌&&◌, ap, arith, append_assoc, Bool-cases, inl, inr,
}
use package.synap_sdk_go.Subscriptions.{
  capacity, Stream, new_stream, offer, receive, shutdown, put, take_first, run_once, close_channel,
  Step, pushed, taken, stopped, Reach, opened, next,
}

-- The first list is the second one without some of its messages.
pub data Within {M : Type 0} : List M → List M → Type 0 where
  none_left : Within [] []
  kept : {m : M} {xs ys : List M} → Within xs ys → Within (m ∷ xs) (m ∷ ys)
  dropped : {m : M} {xs ys : List M} → Within xs ys → Within xs (m ∷ ys)

module _ {M : Type 0} where
  Within-snoc_kept : {xs ys : List M} (m : M) → Within xs ys → Within (xs ++ m ∷ []) (ys ++ m ∷ [])
  Within-snoc_kept m none_left = kept none_left
  Within-snoc_kept m (kept w) = kept (Within-snoc_kept m w)
  Within-snoc_kept m (dropped w) = dropped (Within-snoc_kept m w)

  Within-snoc_dropped : {xs ys : List M} (m : M) → Within xs ys → Within xs (ys ++ m ∷ [])
  Within-snoc_dropped m none_left = dropped none_left
  Within-snoc_dropped m (kept w) = kept (Within-snoc_dropped m w)
  Within-snoc_dropped m (dropped w) = dropped (Within-snoc_dropped m w)

  pub record Inv (s : Stream M) : Type 0 where
    pub bounded : length s.buffered ≤ capacity
    pub ordered : Within (s.received ++ s.buffered) s.sent
    pub once : s.closed ≡ s.done
    pub cancelled : s.cancels ≡ (if s.done then 1 else 0)
    pub calm : (s.panicked && not s.done) ≡ false

  new_stream-Inv : Inv new_stream
  new_stream-Inv = record {
    bounded = omega arith;
    ordered = none_left;
    once = refl;
    cancelled = refl;
    calm = refl;
  }

  put-Inv :
      (closed : Bool) (m : M) (s : Stream M)
      → s.closed ≡ closed
      → Inv s
      → Inv (put closed m (record s { sent = s.sent ++ m ∷ [] }))
  put-Inv true m s e i = record {
    bounded = i.bounded;
    ordered = Within-snoc_dropped m i.ordered;
    once = i.once;
    cancelled = i.cancelled;
    calm = ground (arith, i.once, e);
  }
  put-Inv false m s e i = elim (Bool-cases (ltb (length s.buffered) capacity)) [
    | inl room ↦ rw room (record {
      bounded = ground (arith, length-append s.buffered (m ∷ []));
      ordered = rw (← append_assoc s.received s.buffered (m ∷ [])) (Within-snoc_kept m i.ordered);
      once = i.once;
      cancelled = i.cancelled;
      calm = i.calm;
    })
    | inr full ↦ rw full (record {
      bounded = i.bounded;
      ordered = Within-snoc_dropped m i.ordered;
      once = i.once;
      cancelled = i.cancelled;
      calm = i.calm;
    })
  ]

  offer-Inv : (m : M) (s : Stream M) → Inv s → Inv (offer m s)
  unfolding offer
  offer-Inv m s i = put-Inv s.closed m s refl i

  take_first-Inv : (ms : List M) (s : Stream M) → s.buffered ≡ ms → Inv s → Inv (take_first ms s)
  take_first-Inv [] s e i = i
  take_first-Inv (m ∷ ms) s e i = record {
    bounded = omega (arith, ap length e, i.bounded);
    ordered = rw (append_assoc s.received (m ∷ []) ms) (rw e at i.ordered);
    once = i.once;
    cancelled = i.cancelled;
    calm = i.calm;
  }

  receive-Inv : (s : Stream M) → Inv s → Inv (receive s)
  unfolding receive
  receive-Inv s i = take_first-Inv s.buffered s refl i

  close_channel-Inv :
      (closed : Bool) (s : Stream M)
      → s.closed ≡ closed
      → s.done ≡ false
      → Inv s
      → Inv (close_channel closed (record s { done = true; cancels = s.cancels + 1 }))
  close_channel-Inv true s e d i = absurd (cc (i.once, e, d))
  close_channel-Inv false s e d i = record {
    bounded = i.bounded;
    ordered = i.ordered;
    once = refl;
    cancelled = ground (arith, i.cancelled);
    calm = ground (arith, i.calm, d);
  }

  run_once-Inv : (done : Bool) (s : Stream M) → s.done ≡ done → Inv s → Inv (run_once done s)
  run_once-Inv true s d i = i
  run_once-Inv false s d i = close_channel-Inv s.closed s refl d i

  shutdown-Inv : (s : Stream M) → Inv s → Inv (shutdown s)
  unfolding shutdown
  shutdown-Inv s i = run_once-Inv s.done s refl i

  Step-Inv : {s t : Stream M} → Step s t → Inv s → Inv t
  Step-Inv {s} (pushed m) i = offer-Inv m s i
  Step-Inv {s} taken i = receive-Inv s i
  Step-Inv {s} stopped i = shutdown-Inv s i

  -- However the hook, the consumer and shutdown interleave, the channel never holds more than 64
  -- messages; those that the consumer took and those that it can still take are messages that the
  -- hook was given, in that order and each once at most; the channel is closed exactly if the once
  -- has run, cancel was then called once and otherwise never, and before that nothing panics.
  pub Reach-Inv : {s : Stream M} → Reach s → Inv s
  Reach-Inv opened = new_stream-Inv
  Reach-Inv (next r st) = Step-Inv st (Reach-Inv r)
