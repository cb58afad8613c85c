-- ===== src/Tests/Queues.antt =====
-- A server that keeps a queue, and a program on it.
use synap_sdk_go.Prelude.{
  ◌≡◌, refl, ap, ℕ, suc, none, some, List, [], ◌∷◌, ◌++◌, map, if◌then◌else◌, arith,
}
use synap_sdk_go.Bytes.{Bytes, codes, bytes_eq}
use synap_sdk_go.Bytes.Decimal.{format_nat}
use synap_sdk_go.Value.{Value, str, nil}
use synap_sdk_go.Resp3.Outcome.{value}
use synap_sdk_go.Client.Calls.{Call}
use synap_sdk_go.Response.Shapes.{Shape}
use synap_sdk_go.Response.Assign.RoundTrip.{value_of, Fits}
use synap_sdk_go.Managers.Types.{message_shape}
use synap_sdk_go.Managers.Queue.{
  Message, payload_of, Operation, publish, consume, ack, named, delivered, done, Shelf, first,
  behind, returns_all, updates_all, sent_payloads, received_payloads, run_all, KeepsQueue,
}
use synap_sdk_go.Managers.Queue.Refinement.{run_all-delivers}
use package.synap_sdk_go.Tests.Sample.{world_of, plain}
use package.synap_sdk_go.Tests.Keys.{integers-HoldsBytes}

-- The n-th message: its number as id, priority 5 and at most 3 retries.
abbrev mint : ℕ → Bytes → Message
mint n payload = (format_nat n, (payload, (5, (0, (3, (none, tt))))))

-- What waits, by number and payload.
record Stock : Type 0 where
  held : List (ℕ × Bytes)
  count : ℕ

abbrev minted : List (ℕ × Bytes) → List Message
minted [] = []
minted ((n, payload) ∷ rest) = mint n payload ∷ minted rest

abbrev shelf : Stock → Shelf
shelf s = record { waiting = minted s.held; published = s.count }

abbrev rest_of : List (ℕ × Bytes) → List (ℕ × Bytes)
rest_of [] = []
rest_of (p ∷ ps) = ps

abbrev serve : Bytes → List Value → Call Stock Value
unfolding bytes_eq value_of
serve cmd (queue ∷ str text ∷ []) s =
    if bytes_eq cmd (codes "QPUBLISH")
    then (
      value (str (format_nat s.count)),
      record { held = s.held ++ (s.count, text) ∷ []; count = suc s.count },
    )
    else if bytes_eq cmd (codes "QCONSUME")
    then (
      value (value_of (Shape.ptr message_shape) (first (shelf s).waiting)),
      record s { held = rest_of s.held },
    )
    else (value nil, s)
serve cmd args s = (value nil, s)

minted_append : (ps qs : List (ℕ × Bytes)) → minted (ps ++ qs) ≡ minted ps ++ minted qs
minted_append [] qs = refl
minted_append ((n, payload) ∷ ps) qs = ap (λ x. mint n payload ∷ x) (minted_append ps qs)

minted-behind : (ps : List (ℕ × Bytes)) → minted (rest_of ps) ≡ behind (minted ps)
minted-behind [] = refl
minted-behind (p ∷ ps) = refl

minted-Fits : (ps : List (ℕ × Bytes)) → Fits (Shape.ptr message_shape) (first (minted ps))
unfolding Fits
minted-Fits [] = tt
minted-Fits ((n, payload) ∷ ps) = (
  refl,
  (
    refl,
    tt,
    (
      refl,
      tt,
      (
        refl,
        (omega arith, omega arith),
        (refl, (omega arith, omega arith), (refl, (omega arith, omega arith), (refl, tt, tt))),
      ),
    ),
  ),
)

serve-KeepsQueue : KeepsQueue serve (codes "jobs") mint shelf
unfolding serve
serve-KeepsQueue = record {
  payload_kept = λ n payload. refl;
  fits = λ s. minted-Fits s.held;
  on_publish = λ payload s. (
    _,
    refl,
    ap (λ x. record { waiting = x; published = suc s.count })
        (minted_append s.held ((s.count, payload) ∷ [])),
  );
  on_consume = λ consumer_id s.
      (_, refl, ap (λ x. record { waiting = x; published = s.count }) (minted-behind s.held));
  on_ack = λ message_id s. (_, _, refl, refl);
}

abbrev program : List Operation
program =
    publish (0 ∷ 255 ∷ []) 9 0
    ∷ publish (codes "b") 0 7
    ∷ consume (codes "w1")
    ∷ ack (codes "0")
    ∷ consume (codes "w2")
    ∷ consume (codes "w1")
    ∷ []

abbrev empty : Stock
empty = record { held = []; count = 0 }

program_returns :
    returns_all mint program (shelf empty)
    ≡ named (codes "0")
      ∷ named (codes "1")
      ∷ delivered (some (mint 0 (0 ∷ 255 ∷ [])))
      ∷ done
      ∷ delivered (some (mint 1 (codes "b")))
      ∷ delivered none
      ∷ []
unfolding returns_all format_nat
program_returns = refl

run_all-delivers_example :
    (u : Stock) × (run_all (world_of serve) plain (codes "jobs") program empty
      ≡ (value (returns_all mint program (shelf empty)), u))
    × (shelf u ≡ updates_all mint program (shelf empty))
    × (received_payloads (returns_all mint program (shelf empty))
          ++ map payload_of (shelf u).waiting
        ≡ map payload_of (shelf empty).waiting ++ sent_payloads program)
run_all-delivers_example =
    run_all-delivers (world_of serve) plain refl refl integers-HoldsBytes (codes "jobs") mint shelf
      serve-KeepsQueue program empty
      ((omega arith, (omega arith, tt)), ((omega arith, tt), (tt, (tt, (tt, (tt, tt))))))
