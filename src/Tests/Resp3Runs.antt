-- ===== src/Tests/Resp3Runs.antt =====
-- The RESP3 reader and transport.
use synap_sdk_go.Prelude.{
  ℕ, ◌≡◌, ◌≢◌, refl, [], ◌∷◌, ◌++◌, none, some, Option, List, map, arith, pos, inl, inr, All,
}
use synap_sdk_go.Bytes.{Bytes, codes}
use synap_sdk_go.Value.{Value, nil, int64, str, arr, of_list}
use synap_sdk_go.Value.Text.{sprint}
use synap_sdk_go.Bytes.Decimal.{format_nat, format_int}
use synap_sdk_go.Errors.{synap, server_error}
use synap_sdk_go.Resp3.Outcome.{value, error, panic, out_of_fuel, of_result}
use synap_sdk_go.Resp3.Frame.{build_multibulk, parts_of}
use synap_sdk_go.Resp3.Reader.{read_reply}
use synap_sdk_go.Resp3.Reader.Total.{read_reply-ne-out_of_fuel}
use synap_sdk_go.Resp3.Protocol.{
  Reply, simple, failure, integer, array, map as map_reply, null, reply, no_replies, pair, no_pairs,
  encode, encode_items, meaning, unread, FitsBlock, WellFormed,
}
use synap_sdk_go.Resp3.Protocol.Whole.{read_reply-encode}
use synap_sdk_go.Resp3.Protocol.Commands.{read_reply-build_multibulk}
use synap_sdk_go.Resp3.Connection.{new_resp3, Conn, sent, dialled, hung_up, execute}
use synap_sdk_go.Resp3.Connection.Bounds.{Within, execute-Within}
use synap_sdk_go.Resp3.Connection.Session.{
  live, execute_all, execute_all-in_order, execute_all-nested_error, encode_all, frames_of, IsFlat,
}
use synap_sdk_go.Resp3.Connection.Retry.{execute-lost, lost_log, IsLost}
use package.synap_sdk_go.Tests.Sample.{integers}

-- A bulk string of length -2 is no error of the protocol: the reader panics.
negative_bulk : (read_reply integers (codes "$-2\r\n")).0 ≡ panic
unfolding read_reply
negative_bulk = refl

null_bulk_read : read_reply integers (codes "$-1\r\n+OK\r\n") ≡ (value nil, codes "+OK\r\n")
unfolding read_reply
null_bulk_read = refl

-- An empty verbatim string keeps its format.
empty_verbatim : (read_reply integers (codes "=4\r\ntxt:\r\n")).0 ≡ value (str (codes "txt:"))
unfolding read_reply
empty_verbatim = refl

verbatim_read : (read_reply integers (codes "=5\r\ntxt:a\r\n")).0 ≡ value (str (codes "a"))
unfolding read_reply
verbatim_read = refl

set_frame :
    build_multibulk integers (codes "SET") (str (codes "k") ∷ int64 (pos 12) ∷ [])
    ≡ codes "*3\r\n$3\r\nSET\r\n$1\r\nk\r\n$2\r\n12\r\n"
unfolding build_multibulk format_nat sprint
set_frame = refl

abbrev nested : Reply
nested = array (
    reply (integer (pos 7))
      (reply (map_reply (pair (simple (codes "a")) null no_pairs)) no_replies))

read_reply-ne-out_of_fuel_example : (read_reply integers (codes "*9999\r\n")).0 ≢ out_of_fuel
read_reply-ne-out_of_fuel_example = read_reply-ne-out_of_fuel integers (codes "*9999\r\n")

read_reply-encode_example :
    read_reply integers (encode nested (codes "+OK\r\n"))
    ≡ (of_result (meaning integers nested), unread integers nested (codes "+OK\r\n"))
read_reply-encode_example = read_reply-encode integers nested (codes "+OK\r\n") (omega arith)

abbrev flat_replies : List Reply
flat_replies = integer (pos 1) ∷ failure (codes "ERR no") ∷ []

-- The first connection takes the frame and ends before a reply; the second answers.
abbrev second : ℕ → Option Conn
second n = some (record { accepts = 1; incoming = codes ":7\r\n" })

second_answers :
    (n : ℕ) → second n ≡ some (record { accepts = 1; incoming = encode (integer (pos 7)) [] })
unfolding encode format_int
second_answers n = refl

short_parts : All FitsBlock (parts_of integers (codes "GET") (str (codes "a\r\n") ∷ []))
unfolding sprint
short_parts = omega arith

seven-IsFlat : IsFlat integers (integer (pos 7))
unfolding meaning
seven-IsFlat = inl (int64 (pos 7), refl)

one-IsFlat : IsFlat integers (integer (pos 1))
unfolding meaning
one-IsFlat = inl (int64 (pos 1), refl)

IsFlat-replies : All (λ r. WellFormed integers r × IsFlat integers r) flat_replies
IsFlat-replies = ((omega arith, one-IsFlat), ((omega arith, inr (inl (codes "ERR no", refl))), tt))

read_at_end : IsLost integers second 1 []
unfolding read_reply
read_at_end = (codes "RESP3: read line", [], refl)

read_reply-build_multibulk_example :
    read_reply integers
      (build_multibulk integers (codes "GET") (str (codes "a\r\n") ∷ []) ++ codes "+")
    ≡ (
      value (arr (of_list (map str (parts_of integers (codes "GET") (str (codes "a\r\n") ∷ []))))),
      codes "+",
    )
read_reply-build_multibulk_example =
    read_reply-build_multibulk integers (codes "GET") (str (codes "a\r\n") ∷ []) (codes "+")
      short_parts (omega arith)

abbrev two_commands : List (Bytes × List Value)
two_commands = (codes "INCR", str (codes "a") ∷ []) ∷ (codes "INCR", str (codes "b") ∷ []) ∷ []

abbrev never : ℕ → Option Conn
never n = none

execute_all-in_order_example :
    execute_all integers never two_commands (live 2 (encode_all flat_replies []) 0 []) ≡ (
      map (λ r. of_result (meaning integers r)) flat_replies,
      live 0 [] 0 (frames_of integers never two_commands []),
    )
execute_all-in_order_example =
    execute_all-in_order integers never two_commands flat_replies 2 0 0 [] [] (omega arith)
      (omega arith) IsFlat-replies

-- The reply of an EXEC whose first command failed.
abbrev failed_exec : Reply
failed_exec = array (reply (failure (codes "ERR no")) (reply (integer (pos 7)) no_replies))

execute_all-nested_error_example :
    execute_all integers never two_commands (live 2 (encode failed_exec (codes ":9\r\n")) 0 []) ≡ (
      error (synap (server_error (codes "ERR no")))
          ∷ of_result (meaning integers (integer (pos 7)))
          ∷ [],
      live 0
          (encode_items no_replies (codes ":9\r\n"))
          0
          (frames_of integers never two_commands []),
    )
execute_all-nested_error_example =
    execute_all-nested_error integers never (codes "INCR", str (codes "a") ∷ [])
      (codes "INCR", str (codes "b") ∷ []) (codes "ERR no") (integer (pos 7)) no_replies
      (codes ":9\r\n") 0 0 [] (omega arith) seven-IsFlat

execute-Within_example :
    Within 2
      (build_multibulk integers (codes "INCR") (str (codes "a") ∷ []))
      (live 1 [] 0 [])
      (execute integers second (codes "INCR") (str (codes "a") ∷ []) (live 1 [] 0 []))
execute-Within_example =
    execute-Within integers second (codes "INCR") (str (codes "a") ∷ []) (live 1 [] 0 [])

execute-lost_example : execute integers second (codes "INCR") [] (live 1 [] 0 []) ≡ (
  of_result (meaning integers (integer (pos 7))),
  live 0 [] 1 (
      sent (build_multibulk integers (codes "INCR") [])
      ∷ dialled
      ∷ hung_up
      ∷ lost_log integers second 1 (build_multibulk integers (codes "INCR") []) []),
)
execute-lost_example =
    execute-lost integers second (codes "INCR") [] 1 [] 0 0 (integer (pos 7)) [] [] read_at_end
      (second_answers 0) (omega arith) seven-IsFlat

-- The first command of a new transport: it is dialled, and nothing goes before the command.
first_command : execute integers second (codes "GET") [] new_resp3 ≡ (
  value (int64 (pos 7)),
  record {
    conn = some (record { accepts = 0; incoming = [] });
    dials = 1;
    log = sent (build_multibulk integers (codes "GET") []) ∷ dialled ∷ [];
  },
)
unfolding execute read_reply
first_command = refl
