-- ===== src/Resp3/Protocol/Commands.antt =====
-- The frames of buildMultibulk, read back as replies.
use synap_sdk_go.Prelude.{
  suc, ◌^◌, ◌<◌, ◌≡◌, refl, ap, List, [], ◌∷◌, ◌++◌, append_assoc, map, length, All,
}
use synap_sdk_go.Bytes.{Bytes}
use synap_sdk_go.Value.{Value, str, arr, of_list}
use synap_sdk_go.Value.Text.{Runtime}
use synap_sdk_go.Errors.{ok}
use package.synap_sdk_go.Resp3.Outcome.{value}
use package.synap_sdk_go.Resp3.Frame.{bulks, frame, build_multibulk, parts_of}
use package.synap_sdk_go.Resp3.Reader.{read_reply}
use package.synap_sdk_go.Resp3.Protocol.{
  Replies, array, bulk_string, no_replies, reply, count, encode, encode_items, meaning,
  meaning_items, FitsBlock, WellFormedItems,
}
use package.synap_sdk_go.Resp3.Protocol.Whole.{read_reply-ok}

-- A frame is the array of its parts as bulk strings.
abbrev strings : List Bytes → Replies
strings [] = no_replies
strings (p ∷ ps) = reply (bulk_string p) (strings ps)

count-strings : (ps : List Bytes) → count (strings ps) ≡ length ps
count-strings [] = refl
count-strings (p ∷ ps) = ap suc (count-strings ps)

bulks-encode : (ps : List Bytes) (rest : Bytes) → bulks ps ++ rest ≡ encode_items (strings ps) rest
unfolding bulks encode
bulks-encode [] rest = refl
bulks-encode (p ∷ ps) rest = simp (append_assoc, bulks-encode ps rest)

frame-encode :
    (ps : List Bytes) (rest : Bytes) → frame ps ++ rest ≡ encode (array (strings ps)) rest
unfolding frame encode
frame-encode ps rest = simp (append_assoc, bulks-encode ps rest, count-strings ps)

meaning-strings :
    (rt : Runtime) (ps : List Bytes) → meaning_items rt (strings ps) ≡ ok (of_list (map str ps))
unfolding meaning
meaning-strings rt [] = refl
meaning-strings rt (p ∷ ps) = rw (meaning-strings rt ps)

WellFormed-strings :
    (rt : Runtime) (ps : List Bytes) → All FitsBlock ps → WellFormedItems rt (strings ps)
WellFormed-strings rt [] h = tt
WellFormed-strings rt (p ∷ ps) (h, hs) = (h, WellFormed-strings rt ps hs)

-- A frame is read back as the command and the arguments, and no byte further, whatever bytes they
-- hold: line breaks and type bytes in a value are data.
pub read_reply-build_multibulk :
    (rt : Runtime) (cmd : Bytes) (args : List Value) (rest : Bytes)
    → All FitsBlock (parts_of rt cmd args)
    → length (parts_of rt cmd args) < 2 ^ 63
    → read_reply rt (build_multibulk rt cmd args ++ rest)
      ≡ (value (arr (of_list (map str (parts_of rt cmd args)))), rest)
unfolding build_multibulk meaning
read_reply-build_multibulk rt cmd args rest h n = rw (frame-encode (parts_of rt cmd args) rest) (
    read_reply-ok rt (array (strings (parts_of rt cmd args))) _ rest
      (rw (count-strings (parts_of rt cmd args)) n, WellFormed-strings rt (parts_of rt cmd args) h)
      (rw (meaning-strings rt (parts_of rt cmd args))))
