-- ===== src/Tests/Transactions.antt =====
-- A server that keeps the writes of one transaction, and a program on it.
use synap_sdk_go.Prelude.{
  ◌≡◌, refl, ap, Bool, false, true, Option, none, some, List, [], ◌∷◌, ◌++◌, if◌then◌else◌, ◌||◌,
  arith,
}
use synap_sdk_go.Bytes.{Bytes, codes, bytes_eq}
use synap_sdk_go.Value.{Value, Values, no_values, to_list, str, arr, nil}
use synap_sdk_go.Resp3.Outcome.{Outcome, value}
use synap_sdk_go.Managers.Keys.{
  Operation, set, get, delete, done, text, truth, Contents, with_key, count_of, updates_all,
  KeepsKeys,
}
use synap_sdk_go.Managers.Rpc.{reply_of}
use synap_sdk_go.Transaction.Atomic.{
  Action, inside, outside, returned, refused, replies_all, plans_all, committed, start, commit,
  abandon, is_control, KeepsTransaction,
}
use synap_sdk_go.Transaction.Atomic.Refinement.{transaction-refines}
use package.synap_sdk_go.Tests.Sample.{world_of, plain}

record Server : Type 0 where
  contents : Contents
  waiting : Option (List Operation)

abbrev queued_more : Option (List Operation) → Operation → Option (List Operation)
queued_more none o = none
queued_more (some q) o = some (q ++ o ∷ [])

abbrev applied : Option (List Operation) → Contents → Contents
unfolding updates_all
applied none m = m
applied (some q) m = updates_all q m

-- Where `cmd` stands in a list of names.
data Verb : Type 0 where
  multi queue exec discard set_verb get_verb delete_verb other : Verb

abbrev verb_if : (a b c d e f g : Bool) → Verb
verb_if a b c d e f g =
    if a
    then multi
    else if b
    then queue
    else if c
    then exec
    else if d
    then discard
    else if e
    then set_verb
    else if f
    then get_verb
    else if g
    then delete_verb
    else other

unfoldable verb_of : Bytes → Verb
unfolding bytes_eq
verb_of cmd =
    verb_if (bytes_eq (codes "MULTI") cmd) (bytes_eq (codes "TXQUEUE") cmd)
      (bytes_eq (codes "EXEC") cmd) (bytes_eq (codes "DISCARD") cmd) (bytes_eq (codes "SET") cmd)
      (bytes_eq (codes "GET") cmd) (bytes_eq (codes "DEL") cmd)

abbrev served : Verb → List Value → Server → Outcome Value × Server
served multi args s = (value nil, record s { waiting = some [] })
served queue (id ∷ verb ∷ str key ∷ str t ∷ []) s =
    (value (str (codes "QUEUED")), record s { waiting = queued_more s.waiting (set key t) })
served queue (id ∷ verb ∷ str key ∷ []) s =
    (value (str (codes "QUEUED")), record s { waiting = queued_more s.waiting (delete key) })
served exec args s =
    (value (arr no_values), record { contents = applied s.waiting s.contents; waiting = none })
served discard args s = (value nil, record s { waiting = none })
served set_verb (str key ∷ str t ∷ []) s =
    (value (str (codes "OK")), record s { contents = with_key key (some t) s.contents })
served get_verb (str key ∷ []) s = (value (reply_of (s.contents key)), s)
served delete_verb (str key ∷ []) s =
    (value (count_of (s.contents key)), record s { contents = with_key key none s.contents })
served other (str key ∷ []) s = (value (count_of (s.contents key)), s)
served verb args s = (value nil, s)

abbrev serve : Bytes → List Value → Server → Outcome Value × Server
unfolding verb_of
serve cmd args s = served (verb_of cmd) args s

abbrev id : Bytes
id = b't' ∷ b'1' ∷ []

serve-KeepsKeys : KeepsKeys serve (λ s. s.contents)
unfolding verb_of
serve-KeepsKeys = record {
  on_set = λ key t s. (_, _, refl, λ j. refl);
  on_get = λ key s. (_, refl, λ j. refl);
  on_delete = λ key s. (_, refl, λ j. refl);
  on_exists = λ key s. (_, refl, λ j. refl);
}

abbrev quiet_verb : Verb → Bool
quiet_verb multi = false
quiet_verb queue = false
quiet_verb exec = false
quiet_verb discard = false
quiet_verb v = true

served-quiet :
    (v : Verb) (args : List Value) (s : Server)
    → quiet_verb v ≡ true
    → (served v args s).1.waiting ≡ s.waiting
served-quiet v args s h = ground arith

quiet_if :
    (a b c d e f g x y : Bool)
    → (a || (b || (c || (d || (x || (y || false)))))) ≡ false
    → quiet_verb (verb_if a b c d e f g) ≡ true
quiet_if a b c d e f g x y h = ground arith

quiet : (cmd : Bytes) → is_control cmd ≡ false → quiet_verb (verb_of cmd) ≡ true
unfolding verb_of is_control
quiet cmd h =
    quiet_if (bytes_eq (codes "MULTI") cmd) (bytes_eq (codes "TXQUEUE") cmd)
      (bytes_eq (codes "EXEC") cmd) (bytes_eq (codes "DISCARD") cmd) (bytes_eq (codes "SET") cmd)
      (bytes_eq (codes "GET") cmd) (bytes_eq (codes "DEL") cmd) (bytes_eq (codes "WATCH") cmd)
      (bytes_eq (codes "UNWATCH") cmd) h

serve-KeepsTransaction : KeepsTransaction serve id (λ s. s.contents) (λ s. s.waiting)
unfolding verb_of updates_all applied
serve-KeepsTransaction = record {
  keys = serve-KeepsKeys;
  on_other = λ cmd args s h. served-quiet (verb_of cmd) args s (quiet cmd h);
  on_multi = λ s h. (_, _, refl, refl, refl);
  on_set = λ key t s q h. (_, refl, refl, ap (λ w. queued_more w (set key t)) h);
  on_delete = λ key s q h. (_, refl, refl, ap (λ w. queued_more w (delete key)) h);
  on_exec = λ s q h. (_, _, refl, ap (λ w. applied w s.contents) h, refl);
  on_discard = λ s q h. (_, _, refl, refl, refl);
}

-- Two writes wait while the client outside reads the old text and deletes a key; a read inside is refused.
abbrev todo : List Action
todo =
    inside (set (codes "a") (codes "2"))
    ∷ outside (get (codes "a"))
    ∷ inside (get (codes "a"))
    ∷ outside (set (codes "b") (codes "3"))
    ∷ inside (delete (codes "b"))
    ∷ []

abbrev before : Contents
before = with_key (codes "a") (some (codes "1")) (λ key. none)

abbrev ready : Server
ready = record { contents = before; waiting = none }

todo_replies :
    replies_all todo (start before)
    ≡ returned done
      ∷ returned (text (codes "1"))
      ∷ refused
      ∷ returned done
      ∷ returned (truth false)
      ∷ []
unfolding replies_all
todo_replies = refl

todo_leaves :
    (committed (plans_all todo (start before)) (codes "a") ≡ some (codes "2"))
    × (committed (plans_all todo (start before)) (codes "b") ≡ none)
unfolding committed plans_all
todo_leaves = (refl, refl)

transaction-refines_example :
    ((u : Server) × (results : Values) × (commit (world_of serve) plain id todo ready
        ≡ (value (replies_all todo (start before), (true, (false, (to_list results, tt)))), u))
      × ((j : Bytes) → u.contents j ≡ committed (plans_all todo (start before)) j)
      × (u.waiting ≡ none))
    × ((u : Server) × (abandon (world_of serve) plain id todo ready
          ≡ (value (replies_all todo (start before)), u))
        × ((j : Bytes) → u.contents j ≡ (plans_all todo (start before)).contents j)
        × (u.waiting ≡ none))
transaction-refines_example =
    transaction-refines (world_of serve) plain refl b't' (b'1' ∷ []) refl refl (λ s. s.contents)
      (λ s. s.waiting) serve-KeepsTransaction todo ready before (λ j. refl) refl
