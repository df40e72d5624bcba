-- ===== src/Async/Writes/Silence.antt =====
-- What a write that fails leaves of a session.
use asio_network.Base.{◌≡◌, refl, ◌∙◌, Bool, true, List, [], ◌∷◌, ◌++◌, append-nil}
use asio_network.Wire.Exec.{done}
use asio_network.Base.{sym, append_assoc}
use asio_network.Async.{PartNode, Offered}
use asio_network.Async.{copy_node, Handler, write_callback, write_buffer, on_write}
use asio_network.Async.Writes.{
  Happens, Traffic, says, takes, fails, run_handler, end_write, happen, all_happen,
}

-- The nodes of what WriteToSocket is given.
abbrev pub said : List Happens → List PartNode
said [] = []
said (says buf ∷ hs) = copy_node buf ∷ said hs
said (takes held n ∷ hs) = said hs
said (fails ∷ hs) = said hs

-- With the flag set and no write under way, nothing is ever written.
silent_parts :
    (hs : List Happens) (t : Traffic)
    → (t' : Traffic) × (all_happen hs
          (record t { session = record (t.session) { send_pending = true; writes = [] } })
        ≡ done t')
      × (t'.sent ≡ t.sent)
      × (t'.session.writes ≡ [])
      × (t'.session.send_queue ≡ t.session.send_queue ++ said hs)
unfolding all_happen happen end_write write_buffer
silent_parts [] t = (_, refl, refl, refl, sym (append-nil t.session.send_queue))
silent_parts (says buf ∷ hs) t =
    let (t', e, same, none_left, queued) = silent_parts hs (record t {
      session = record (t.session) { send_queue = t.session.send_queue ++ (copy_node buf ∷ []) };
      accepted = t.accepted ++ buf;
    }) in
    (
      t',
      e,
      same,
      none_left,
      queued ∙ append_assoc t.session.send_queue (copy_node buf ∷ []) (said hs),
    )
silent_parts (takes held n ∷ hs) t = silent_parts hs t
silent_parts (fails ∷ hs) t = silent_parts hs t

failed_parts :
    (hs : List Happens) (t : Traffic) (p : Bool) (w : List (Offered × Handler)) (offered : Offered)
    → p ≡ true
    → w ≡ (offered, write_callback) ∷ []
    → (t' : Traffic) × (all_happen
          (fails ∷ hs)
          (record t { session = record (t.session) { send_pending = p; writes = w } })
        ≡ done t')
      × (t'.sent ≡ t.sent)
      × (t'.session.writes ≡ [])
      × (t'.session.send_queue ≡ t.session.send_queue ++ said hs)
unfolding all_happen happen end_write run_handler on_write
failed_parts hs t p w offered ep ew =
    let (t', e, same, none_left, queued) = silent_parts hs (record t { sent = t.sent ++ [] }) in
    rw (ep, ew) (t', e, same ∙ append-nil t.sent, none_left, queued)

-- With the handlers bound to their session, which line 28 of Session.cpp fails to do: where the one
-- write under way, which WriteCallBack is to end, fails, the session is silenced, as the handler
-- returns with `_send_pending` still set. The node of the failed write stays where it is, whatever
-- WriteToSocket is given afterwards is queued behind it in order, no write is started, and none of it
-- reaches the socket.
pub failed_write_silences :
    (hs : List Happens) (t : Traffic) (offered : Offered)
    → t.session.send_pending ≡ true
    → t.session.writes ≡ (offered, write_callback) ∷ []
    → (t' : Traffic) × (all_happen (fails ∷ hs) t ≡ done t')
      × (t'.sent ≡ t.sent)
      × (t'.session.writes ≡ [])
      × (t'.session.send_queue ≡ t.session.send_queue ++ said hs)
failed_write_silences hs t offered ep ew =
    failed_parts hs t t.session.send_pending t.session.writes offered ep ew
