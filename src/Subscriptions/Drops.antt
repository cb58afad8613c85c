-- ===== src/Subscriptions/Drops.antt =====
-- What a consumer that does not keep up still gets: the oldest messages.
use synap_sdk_go.Prelude.{
  ℕ, zero, suc, ◌+◌, ◌<◌, ◌≡◌, refl, ◌∙◌, true, false, List, [], ◌∷◌, ◌++◌, ltb, length,
  length-append, take, arith, append-nil, append_assoc, ap,
}
use package.synap_sdk_go.Subscriptions.{capacity, Stream, new_stream, offer}

unfoldable pub offer_all : {M : Type 0} → List M → Stream M → Stream M
offer_all [] s = s
offer_all (m ∷ ms) s = offer_all ms (offer m s)

pub room : (n : ℕ) → n < capacity → ltb n capacity ≡ true
room n h = ground arith

module _ {M : Type 0} where
  offer-full :
      (m : M) (s : Stream M)
      → s.closed ≡ false
      → length s.buffered ≡ capacity
      → offer m s ≡ record s { sent = s.sent ++ m ∷ [] }
  unfolding offer
  offer-full m s open_ full = rw (open_, full)

  offer-room :
      (m : M) (s : Stream M)
      → s.closed ≡ false
      → length s.buffered < capacity
      → offer m s ≡ record s { sent = s.sent ++ m ∷ []; buffered = s.buffered ++ m ∷ [] }
  unfolding offer
  offer-room m s open_ h = rw (open_, room (length s.buffered) h)

  take-nil : (k : ℕ) → take {A = M} k [] ≡ []
  take-nil zero = refl
  take-nil (suc k) = refl

  buffered-offer_all :
      (ms : List M) (k : ℕ) (s : Stream M)
      → s.closed ≡ false
      → length s.buffered + k ≡ capacity
      → (offer_all ms s).buffered ≡ s.buffered ++ take k ms
  unfolding offer_all
  buffered-offer_all [] k s o h = rw (take-nil k, append-nil)
  buffered-offer_all (m ∷ ms) zero s o h =
      ap (λ t. (offer_all ms t).buffered) (offer-full m s o (omega arith))
      ∙ buffered-offer_all ms zero (record s { sent = s.sent ++ m ∷ [] }) o h
  buffered-offer_all (m ∷ ms) (suc k) s o h =
      ap (λ t. (offer_all ms t).buffered) (offer-room m s o (omega arith))
      ∙ buffered-offer_all ms k
          (record s { sent = s.sent ++ m ∷ []; buffered = s.buffered ++ m ∷ [] }) o
          (omega (arith, length-append s.buffered (m ∷ [])))
      ∙ append_assoc s.buffered (m ∷ []) (take k ms)

  -- While the consumer takes nothing, the channel holds the first 64 of the messages that the hook
  -- was given, in their order: a slow consumer loses the newest ones.
  pub offer_all-take : (ms : List M) → (offer_all ms new_stream).buffered ≡ take capacity ms
  offer_all-take ms = buffered-offer_all ms capacity new_stream refl refl
