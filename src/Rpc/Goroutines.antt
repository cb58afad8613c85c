-- ===== src/Rpc/Goroutines.antt =====
-- Goroutines that share one SynapRpcTransport: each step is one thing that a goroutine does to it,
-- the mutex makes those of ensureConnected and Close one step each, and they come in any order.
use synap_sdk_go.Prelude.{◌||◌, ◌&&◌, refl, false, [], ℤ, ℕ, ◌≡◌, true, List, ◌∷◌}
use synap_sdk_go.Bytes.{Bytes}
use package.synap_sdk_go.Rpc.Values.{Thunder}
use package.synap_sdk_go.Rpc.Transport.{
  called, hooked, new_transport, Session, Network, ensure_connected, dial, call, close,
  close_client,
}
use package.synap_sdk_go.Rpc.Transport.Balance.{
  is_open, is_held, IsBalanced, has, remove, close_push-IsBalanced,
}
use package.synap_sdk_go.Rpc.Transport.Kept.{
  subs_with, call_session, close-Balanced, dial-Balanced, ensure_connected-Balanced,
}
use package.synap_sdk_go.Rpc.Push.{hook}

-- The transport, and the clients of the subscriptions that are being opened or are open.
pub record System (T : Thunder) : Type 0 where
  pub session : Session T
  pub subs : List ℕ

module _ (T : Thunder) (net : Network T) where
  pub data Step (s : System T) : System T → Type 0 where
    -- Execute takes the shared client
    connect : Step s (record s { session = (ensure_connected T net s.session).1 })
    -- Execute, or a subscription, sends a command on some client, open or not
    send :
        (n : ℕ) (cmd : Bytes) (args : List T.W)
        → Step s (record s { session = (call T net n cmd args s.session).1 })
    shut : Step s (record s { session = close T s.session })
    -- SubscribePush and WatchPush dial, register the hook, and close where the call fails or when
    -- they are cancelled
    open_sub : Step s (record {
      session = (dial T net s.session).1;
      subs = subs_with s.subs (dial T net s.session);
    })
    listen : (n : ℕ) → Step s (record s { session = (hook T n s.session).1 })
    close_sub :
        (n : ℕ)
        → has s.subs n ≡ true
        → Step s (record { session = close_client T n s.session; subs = remove n s.subs })

  pub data Reach (s : System T) : System T → Type 0 where
    here : Reach s s
    next : {t u : System T} → Reach s t → Step t u → Reach s u

  abbrev pub Balanced : System T → Type 0
  Balanced s = IsBalanced s.session.client s.session.dials s.session.log s.subs

  -- A call and a hook open and close nothing.
  called-IsBalanced :
      (s : System T) (n : ℕ) (cmd : Bytes) (args : List T.W)
      → Balanced s
      → IsBalanced s.session.client s.session.dials (called n cmd args ∷ s.session.log) s.subs
  unfolding is_open
  called-IsBalanced s n cmd args b = record { books = b.books; apart = b.apart; fresh = b.fresh }

  hooked-IsBalanced :
      (s : System T) (n : ℕ)
      → Balanced s
      → IsBalanced s.session.client s.session.dials (hooked n ∷ s.session.log) s.subs
  unfolding is_open
  hooked-IsBalanced s n b = record { books = b.books; apart = b.apart; fresh = b.fresh }

  -- Every step keeps the books.
  Step-Balanced : {s t : System T} → Step s t → Balanced s → Balanced t
  Step-Balanced {s} connect b = ensure_connected-Balanced T s.subs net s.session b
  Step-Balanced {s} (send n cmd args) b =
      rw (call_session T net n cmd args s.session) (called-IsBalanced s n cmd args b)
  Step-Balanced {s} shut b = (close-Balanced T s.subs s.session b).0
  Step-Balanced {s} open_sub b = dial-Balanced T s.subs net s.session b
  Step-Balanced {s} (listen n) b = hooked-IsBalanced s n b
  Step-Balanced {s} (close_sub n h) b =
      close_push-IsBalanced s.session.client s.session.dials s.session.log s.subs n h b

  Reach-Balanced : {s t : System T} → Reach s t → Balanced s → Balanced t
  Reach-Balanced here b = b
  Reach-Balanced (next r st) b = Step-Balanced st (Reach-Balanced r b)

  abbrev pub initial : Bytes → ℤ → ℤ → System T
  unfolding new_transport
  initial host port timeout = record { session = new_transport T host port timeout; subs = [] }

  initial-Balanced : (host : Bytes) (port timeout : ℤ) → Balanced (initial host port timeout)
  unfolding initial is_open has
  initial-Balanced host port timeout = record {
    books = λ n. refl;
    apart = λ n. refl;
    fresh = λ n h. refl;
  }

  -- However goroutines interleave on a new transport, the Thunder clients that are open are exactly
  -- the one that the transport holds, if it holds one, and those of the subscriptions that are not
  -- closed, and the two do not overlap: no client is leaked, and none in use is closed.
  pub Reach-open :
      (host : Bytes) (port timeout : ℤ) {t : System T} (n : ℕ)
      → Reach (initial host port timeout) t
      → (is_open n t.session.log ≡ (is_held t.session.client n || has t.subs n))
        × ((is_held t.session.client n && has t.subs n) ≡ false)
  Reach-open host port timeout n r =
      let b = Reach-Balanced r (initial-Balanced host port timeout) in (b.books n, b.apart n)
