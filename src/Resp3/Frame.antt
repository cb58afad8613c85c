-- ===== src/Resp3/Frame.antt =====
-- buildMultibulk of transport_resp3.go: a command as a RESP2 array of bulk strings.
use synap_sdk_go.Prelude.{List, [], ◌∷◌, ◌++◌, map, length}
use synap_sdk_go.Bytes.{Bytes}
use synap_sdk_go.Bytes.Decimal.{format_nat}
use synap_sdk_go.Value.{Value}
use synap_sdk_go.Value.Text.{Runtime, sprint}

-- A line break, in front of what follows it.
abbrev pub crlf : Bytes → Bytes
crlf rest = 13 ∷ 10 ∷ rest

-- $len\r\ndata\r\n
unfoldable pub bulk : Bytes → Bytes
bulk p = b'$' ∷ (format_nat (length p) ++ crlf (p ++ crlf []))

unfoldable pub bulks : List Bytes → Bytes
unfolding bulk
bulks [] = []
bulks (p ∷ ps) = bulk p ++ bulks ps

-- The command and its arguments as text.
abbrev pub parts_of : Runtime → Bytes → List Value → List Bytes
parts_of rt cmd args = cmd ∷ map (sprint rt) args

unfoldable pub frame : List Bytes → Bytes
unfolding bulks
frame parts = b'*' ∷ (format_nat (length parts) ++ crlf (bulks parts))

unfoldable pub build_multibulk : Runtime → Bytes → List Value → Bytes
unfolding frame
build_multibulk rt cmd args = frame (parts_of rt cmd args)
