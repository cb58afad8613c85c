-- ===== src/Resp3/Protocol/Steps.antt =====
-- Steps of the reader: what it leaves unread, a line, and a round of each loop.
use synap_sdk_go.Prelude.{ℕ, suc, ◌≡◌, refl, ◌∷◌}
use synap_sdk_go.Bytes.{Bytes}
use synap_sdk_go.Value.{Value, Values, Entries, item, no_entries}
use synap_sdk_go.Value.Maps.{insert}
use synap_sdk_go.Value.Text.{Runtime, sprint}
use synap_sdk_go.Errors.{Error, Result, ok, err, ◌>>=◌, ok_of_bind}
use package.synap_sdk_go.Resp3.Outcome.{value, error, Reader, of_result}
use package.synap_sdk_go.Resp3.Reader.{read_typed, type_byte, read_response, repeat, repeat_pairs}
use package.synap_sdk_go.Resp3.Protocol.{
  Reply, Replies, Pairs, simple, array, set, map, no_replies, reply, no_pairs, pair, meaning,
  meaning_items, meaning_pairs, unread, unread_items, unread_pairs, IsLine, line,
}
use package.synap_sdk_go.Resp3.Protocol.Lines.{read_line-crlf}

-- A reader that meets no error leaves all that follows the reply.
mutual
  unfolding meaning unread

  pub unread-ok :
      (rt : Runtime) (r : Reply) (v : Value) (rest : Bytes)
      → meaning rt r ≡ ok v
      → unread rt r rest ≡ rest
  unread-ok rt (array rs) v rest h =
      let (vs, p, _) = ok_of_bind (meaning_items rt rs) _ h in unread_items-ok rt rs vs rest p
  unread-ok rt (set rs) v rest h =
      let (vs, p, _) = ok_of_bind (meaning_items rt rs) _ h in unread_items-ok rt rs vs rest p
  unread-ok rt (map ps) v rest h =
      let (m, p, _) = ok_of_bind (meaning_pairs rt ps no_entries) _ h in
      unread_pairs-ok rt ps no_entries m rest p
  unread-ok rt (simple s) v rest h = refl
  unread-ok rt _ v rest h = refl

  pub unread_items-ok :
      (rt : Runtime) (rs : Replies) (vs : Values) (rest : Bytes)
      → meaning_items rt rs ≡ ok vs
      → unread_items rt rs rest ≡ rest
  unread_items-ok rt no_replies vs rest h = refl
  unread_items-ok rt (reply r rs) vs rest h =
      let (v, p, q) = ok_of_bind (meaning rt r) _ h in
      let (ws, p', _) = ok_of_bind (meaning_items rt rs) _ q in
      rw p (unread_items-ok rt rs ws rest p')

  pub unread_pairs-ok :
      (rt : Runtime) (ps : Pairs) (m n : Entries) (rest : Bytes)
      → meaning_pairs rt ps m ≡ ok n
      → unread_pairs rt ps rest ≡ rest
  unread_pairs-ok rt no_pairs m n rest h = refl
  unread_pairs-ok rt (pair k r ps) m n rest h =
      let (x, p, q) = ok_of_bind (meaning rt k) _ h in
      let (v, p', q') = ok_of_bind (meaning rt r) _ q in
      rw (p, p') (unread_pairs-ok rt ps _ n rest q')

module _ (rt : Runtime) where
  -- A line is dispatched on its first byte.
  pub read_response-line :
      (fuel c : ℕ) (s rest : Bytes)
      → IsLine (c ∷ s)
      → read_response rt (suc fuel) (line c s rest)
        ≡ read_typed rt (read_response rt fuel) (type_byte c) s rest
  unfolding read_response
  read_response-line fuel c s rest h = rw (read_line-crlf (c ∷ s) rest h)

  module _ (read : Reader Value) where
    -- One round of the loops, after a value and after an error.
    pub repeat-value :
        (n : ℕ) (s s' t : Bytes) (v : Value) (q : Result Values)
        → read s ≡ (value v, s')
        → repeat read n s' ≡ (of_result q, t)
        → repeat read (suc n) s ≡ (of_result (q >>= λ vs. ok (item v vs)), t)
    unfolding repeat
    repeat-value n s s' t v (ok vs) p q = rw (p, q)
    repeat-value n s s' t v (err e) p q = rw (p, q)

    pub repeat-error :
        (n : ℕ) (s s' : Bytes) (e : Error)
        → read s ≡ (error e, s')
        → repeat read (suc n) s ≡ (error e, s')
    unfolding repeat
    repeat-error n s s' e p = rw p

    pub repeat_pairs-value :
        (n : ℕ) (s s' s'' : Bytes) (k v : Value) (m : Entries)
        → read s ≡ (value k, s')
        → read s' ≡ (value v, s'')
        → repeat_pairs rt read (suc n) m s ≡ repeat_pairs rt read n (insert (sprint rt k) v m) s''
    unfolding repeat_pairs
    repeat_pairs-value n s s' s'' k v m p q = rw (p, q)

    pub repeat_pairs-key_error :
        (n : ℕ) (s s' : Bytes) (e : Error) (m : Entries)
        → read s ≡ (error e, s')
        → repeat_pairs rt read (suc n) m s ≡ (error e, s')
    unfolding repeat_pairs
    repeat_pairs-key_error n s s' e m p = rw p

    pub repeat_pairs-error :
        (n : ℕ) (s s' s'' : Bytes) (k : Value) (e : Error) (m : Entries)
        → read s ≡ (value k, s')
        → read s' ≡ (error e, s'')
        → repeat_pairs rt read (suc n) m s ≡ (error e, s'')
    unfolding repeat_pairs
    repeat_pairs-error n s s' s'' k e m p q = rw (p, q)
