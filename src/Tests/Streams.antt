-- ===== src/Tests/Streams.antt =====
-- A server that keeps the log of a room, and a program on it.
use synap_sdk_go.Prelude.{
  ◌≡◌, ◌≤◌, ◌+◌, ◌^◌, refl, ap, sym, ◌∙◌, ℕ, suc, pos, none, List, [], ◌∷◌, ◌++◌, map, take, drop,
  length, arith, ℤ,
}
use synap_sdk_go.Bytes.{Bytes, codes, bytes_eq}
use synap_sdk_go.Value.{Value, str, int, int64, nil}
use synap_sdk_go.Resp3.Outcome.{value}
use synap_sdk_go.Client.Calls.{Call}
use synap_sdk_go.Response.Shapes.{Shape}
use synap_sdk_go.Response.Assign.RoundTrip.{value_of, Fits}
use synap_sdk_go.Managers.Types.{event_shape}
use synap_sdk_go.Managers.Stream.{
  Event, data_of, Operation, publish, read, at_offset, events, returns_all, updates_all, sent_texts,
  run_all, KeepsLog,
}
use synap_sdk_go.Managers.Stream.Refinement.{run_all-logs}
use package.synap_sdk_go.Tests.Sample.{world_of, plain}
use package.synap_sdk_go.Tests.Keys.{integers-HoldsNaturals}

abbrev mint : ℕ → Bytes → Bytes → Event
mint n event text = (n, (event, (str text, (none, tt))))

-- The events by type and text, numbered from n on.
abbrev numbered : ℕ → List (Bytes × Bytes) → List Event
numbered n [] = []
numbered n ((event, text) ∷ rest) = mint n event text ∷ numbered (suc n) rest

abbrev log : List (Bytes × Bytes) → List Event
log s = numbered 0 s

abbrev window : ℤ → ℤ → List Event → List Event
window (pos offset) (pos limit) es = take limit (drop offset es)
window offset limit es = []

abbrev serve : Bytes → List Value → Call (List (Bytes × Bytes)) Value
unfolding bytes_eq value_of
serve cmd (room ∷ str event ∷ str text ∷ []) s =
    (value (int64 (pos (length s))), s ++ (event, text) ∷ [])
serve cmd (room ∷ reader ∷ int offset ∷ int limit ∷ []) s =
    (value (value_of (Shape.slice event_shape) (window offset limit (log s))), s)
serve cmd args s = (value nil, s)

length-numbered : (n : ℕ) (s : List (Bytes × Bytes)) → length (numbered n s) ≡ length s
length-numbered n [] = refl
length-numbered n ((event, text) ∷ s) = ap suc (length-numbered (suc n) s)

numbered-append :
    (n : ℕ) (s : List (Bytes × Bytes)) (event text : Bytes)
    → numbered n (s ++ (event, text) ∷ []) ≡ numbered n s ++ mint (n + length s) event text ∷ []
numbered-append n [] event text = ap (λ k. mint k event text ∷ []) (omega arith)
numbered-append n ((e, t) ∷ s) event text =
    ap (λ x. mint n e t ∷ x)
      (numbered-append (suc n) s event text
        ∙ ap (λ k. numbered (suc n) s ++ mint k event text ∷ []) (omega arith))

numbered-Fits :
    (n : ℕ) (s : List (Bytes × Bytes))
    → n + length s ≤ 2 ^ 63
    → Fits (Shape.slice event_shape) (numbered n s)
unfolding Fits
numbered-Fits n [] h = tt
numbered-Fits n ((event, text) ∷ s) h = (
  (refl, (omega (arith, h), omega (arith, h)), (refl, tt, (refl, tt, (refl, tt, tt)))),
  numbered-Fits (suc n) s (omega (arith, h)),
)

serve-KeepsLog : KeepsLog serve (codes "room") mint log
unfolding serve
serve-KeepsLog = record {
  text_kept = λ n event text. refl;
  fits = λ s h. numbered-Fits 0 s (omega (arith, h, length-numbered 0 s));
  on_publish = λ event text s h. (
    _,
    ap (λ k. (value (int64 (pos k)), s ++ (event, text) ∷ [])) (sym (length-numbered 0 s)),
    numbered-append 0 s event text
        ∙ ap (λ k. log s ++ mint k event text ∷ []) (omega (arith, length-numbered 0 s)),
  );
  on_read = λ offset limit s h k b. (_, refl, refl);
}

abbrev program : List Operation
program =
    publish (codes "login") (222 ∷ 173 ∷ [])
    ∷ publish (codes "logout") (codes "b")
    ∷ read 0 1
    ∷ read 1 10
    ∷ read 2 10
    ∷ []

program_returns :
    returns_all mint program []
    ≡ at_offset 0
      ∷ at_offset 1
      ∷ events (mint 0 (codes "login") (222 ∷ 173 ∷ []) ∷ [])
      ∷ events (mint 1 (codes "logout") (codes "b") ∷ [])
      ∷ events []
      ∷ []
unfolding returns_all
program_returns = refl

run_all-logs_example :
    (u : List (Bytes × Bytes)) × (run_all (world_of serve) plain (codes "room") program []
      ≡ (value (returns_all mint program []), u))
    × (log u ≡ updates_all mint program [])
    × (map data_of (log u) ≡ sent_texts program)
run_all-logs_example =
    run_all-logs (world_of serve) plain refl refl integers-HoldsNaturals (codes "room") mint log
      serve-KeepsLog program []
      (
        tt,
        (
          tt,
          (
            (omega arith, omega arith),
            ((omega arith, omega arith), ((omega arith, omega arith), tt)),
          ),
        ),
      )
      (omega arith)
