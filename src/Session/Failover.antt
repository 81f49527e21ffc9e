-- ===== src/Session/Failover.antt =====
-- A client whose registry fails and its secondary, which has repeated the requests.
use soros.Base.{
  ℕ, ◌≡◌, refl, true, false, [], ◌∷◌, ◌++◌, some, inl, inr, ok, exit, none, ◌==◌, ◌∙◌, ap, arith,
  sym, subst,
}
use soros.Protocol.{
  ProcId, KeyId, Bytes, Serde, RequestType, RegistryResponse, newline, registry_request,
  registry_response, registry_connection, to_vec, from_slice,
}
use soros.AccessManager.Calls.{perform, answer, lock_after, key_of}
use soros.AccessManager.Invariant.{answer-Returned}
use soros.AccessManager.Refinement.{IsSound, perform-Refines}
use soros.Network.{Network, TcpStream, Token, IoError}
use soros.RegistryServer.{
  Platform, Server, handle_message, answer_request, handle_response, forward_request,
}
use soros.RegistryServer.Requests.{
  handle_data, handle_request, after_response, notify_all, count_request,
}
use soros.RegistryServer.Frame.{call_of}
use soros.RegistryServer.Replies.{verdict, reply, afterwards, handle_data-reply}
use soros.RegistryServer.Mirror.{serve, locks_of, mirror_agrees}
use soros.RegistryServer.Sound.{handle_request-IsSound}
use soros.AccessManager
use soros.ProtocolClient.{
  Client, has_newline, receive_message, registry_send_request, send_to_secondary,
  switch_to_secondary, registry_handle_connection,
}
use soros.ProtocolClient.Answers.{ask, IsAsked, received, ask-answered}
use soros.Session.{outcome_of, concluded-verdict, plain}
use soros.Session.Lines.{Brings}

module _ (ours : Network) (serde : Serde) where
  -- The client once it has the stream of the secondary.
  abbrev pub switched : Client ours serde → TcpStream → Bytes → ours.World → Client ours serde
  switched c stream cur w = record c { registry_stream = stream; curr_data = cur; world = w }

  registry_send_request-switched :
      (fuel : ℕ) (k : KeyId) (t : RequestType) (c : Client ours serde) (text cur : Bytes)
      (e : IoError) (stream : TcpStream) (id : ProcId) (w1 w2 w3 w4 w5 : ours.World)
      → to_vec serde (registry_request k c.proc_id t) ≡ inr text
      → ours.write_all c.registry_stream text c.world ≡ (inl e, w1)
      → c.is_primary ≡ true
      → ours.connect c.secondary_server w1 ≡ (inr stream, w2)
      → receive_message ours serde fuel stream (c.curr_data, w2)
        ≡ (ok (registry_connection id), (cur, w3))
      → ours.set_timeouts stream 5 w3 ≡ (inr tt, w4)
      → ours.write_all stream text w4 ≡ (inr tt, w5)
      → registry_send_request ours serde fuel k t c ≡ (ok tt, switched c stream cur w5)
  unfolding registry_send_request send_to_secondary switch_to_secondary registry_handle_connection
  registry_send_request-switched fuel k t c text cur e stream id w1 w2 w3 w4 w5 asked failed primary
        connected greeted timed sent =
      ground arith

module _ (P : Platform) where
  -- A primary creates the key, answers, forwards the request to its secondary, and exits.
  first_creation :
      (token : Token) (text reply_text : Bytes) (p : ProcId) (k : KeyId) (stream back : TcpStream)
      (v1 v2 : P.network.World) (s : Server P)
      → s.backup_stream ≡ some back
      → s.request_counter ≡ 0
      → s.access_manager.access_granted.sent ≡ []
      → s.access_manager.key_states k ≡ none
      → from_slice P.serde text ≡ inr (registry_request k p RequestType.create)
      → s.token_stream_map token ≡ some stream
      → to_vec P.serde (registry_response (RegistryResponse.success k)) ≡ inr reply_text
      → P.network.write_all stream reply_text s.world ≡ (inr tt, v1)
      → P.network.write_all back text v1 ≡ (inr tt, v2)
      → ((handle_request P token text s).0 ≡ exit) × ((handle_request P token text s).1.world ≡ v2)
  unfolding handle_request handle_message answer_request AccessManager.create handle_response
      after_response notify_all forward_request count_request
  first_creation token text reply_text p k stream back v1 v2 s backed first quiet free parsed found
        written answered forwarded =
      ground arith

module _ (P Q : Platform)
    (same_format : (text : Bytes) → from_slice P.serde text ≡ from_slice Q.serde text)
    (ours : Network) where
  -- A primary and its secondary agree on the locks, and the primary gets its first request that it does
  -- not refuse, the creation of a key. It answers, writes the request to its secondary, and exits. The
  -- secondary handles what it was written. Then a client of the primary asks to create, delete or
  -- release a key, and its write to the primary fails. If the client can connect to the secondary, and
  -- its request and the reply come through, then its call ends as the lock that the primary had at its
  -- exit would have answered, and the secondary's lock makes that step.
  pub ask-failover :
      (at through_token token : Token) (s : Server P) (b : Server Q) (text reply_text : Bytes)
      (p : ProcId) (new_key : KeyId) (asking back : TcpStream) (v1 v2 : P.network.World)
      (t : RequestType) (k : KeyId) (c : Client ours Q.serde) (fuel : ℕ) (h : ℕ)
      (hs body cur : Bytes) (e : IoError) (stream far : TcpStream) (id : ProcId)
      (w1 w2 w3 w4 w5 : ours.World) (u v : Q.network.World) (st : Bytes × ours.World)
      → let (end, held) = handle_request P at text s in
        let other = (handle_request Q through_token text b).1 in
        let call = call_of c.proc_id t k in
        let o = held.access_manager.key_states (key_of call) in
        let x = verdict t k (answer call o) in
        IsSound s.access_manager
        → IsSound b.access_manager
        → locks_of P s ≡ locks_of Q b
        → s.backup_stream ≡ some back
        → s.request_counter ≡ 0
        → s.access_manager.access_granted.sent ≡ []
        → s.access_manager.key_states new_key ≡ none
        → from_slice P.serde text ≡ inr (registry_request new_key p RequestType.create)
        → s.token_stream_map at ≡ some asking
        → to_vec P.serde (registry_response (RegistryResponse.success new_key)) ≡ inr reply_text
        → P.network.write_all asking reply_text s.world ≡ (inr tt, v1)
        → P.network.write_all back text v1 ≡ (inr tt, v2)
        → IsAsked t
        → to_vec Q.serde (registry_request k c.proc_id t) ≡ inr (h ∷ hs)
        → from_slice Q.serde (h ∷ hs) ≡ inr (registry_request k c.proc_id t)
        → ours.write_all c.registry_stream (h ∷ hs) c.world ≡ (inl e, w1)
        → c.is_primary ≡ true
        → ours.connect c.secondary_server w1 ≡ (inr stream, w2)
        → receive_message ours Q.serde fuel stream (c.curr_data, w2)
          ≡ (ok (registry_connection id), (cur, w3))
        → ours.set_timeouts stream 5 w3 ≡ (inr tt, w4)
        → ours.write_all stream (h ∷ hs) w4 ≡ (inr tt, w5)
        → (token == other.backup_token) ≡ false
        → other.token_stream_map token ≡ some far
        → Q.network.read far 256 other.world ≡ (inr (h ∷ hs), u)
        → to_vec Q.serde (registry_response (reply Q x)) ≡ inr (body ++ newline ∷ [])
        → has_newline body ≡ false
        → from_slice Q.serde body ≡ inr (registry_response (reply Q x))
        → Q.network.write_all far (body ++ newline ∷ []) u ≡ (inr tt, v)
        → Brings ours Q.serde fuel stream (body ++ newline ∷ []) (cur, w5) st
        → let m' = (perform Q.order call other.access_manager).1 in
          (end ≡ exit)
          × (held.world ≡ v2)
          × (ask ours Q.serde t fuel k c ≡ (
            outcome_of Q ours (answer call o),
            received ours Q.serde (switched ours Q.serde c stream cur w5) st,
          ))
          × (handle_data Q token other
              ≡ afterwards Q token (h ∷ hs) x (record other { world = v; access_manager = m' }))
          × (m'.key_states (key_of call) ≡ lock_after call o)
  unfolding serve
  ask-failover at through_token token s b text reply_text p new_key asking back v1 v2 t k c fuel h
        hs body cur e stream far id w1 w2 w3 w4 w5 u v st sound sound' agree backed first quiet free
        created from_client answer_text answered forwarded asked written parsed failed primary
        connected greeted timed sent client found got replied one read_back replied_there brought =
      let (end, held) = handle_request P at text s in
      let other = (handle_request Q through_token text b).1 in
      let (exits, forwards) =
        first_creation P at text reply_text p new_key asking back v1 v2 s backed first quiet free
          created from_client answer_text answered forwarded in
      let call = call_of c.proc_id t k in
      let o = held.access_manager.key_states (key_of call) in
      let r = reply Q (verdict t k (answer call o)) in
      let other_sound = handle_request-IsSound Q through_token text b sound' in
      let same : o ≡ other.access_manager.key_states (key_of call) =
        ap (λ locks. locks (key_of call))
          (mirror_agrees P Q same_format through_token ((at, text) ∷ []) s b sound sound' agree) in
      (
        exits,
        forwards,
        ask-answered ours Q.serde t fuel k c (switched ours Q.serde c stream cur w5) r st asked
              (registry_send_request-switched ours Q.serde fuel k t c (h ∷ hs) cur e stream id w1 w2
                w3 w4 w5 written failed primary connected greeted timed sent)
              (brought body (registry_response r) refl one read_back)
            ∙ ap (λ y. (y, received ours Q.serde (switched ours Q.serde c stream cur w5) st))
                (concluded-verdict Q ours t k (answer call o) asked (answer-Returned call o)),
        handle_data-reply Q token far h hs (body ++ newline ∷ []) c.proc_id t k u v other
              other_sound (plain Q ours t asked) client found got parsed
              (subst
                (λ o.
                  to_vec Q.serde (registry_response (reply Q (verdict t k (answer call o))))
                  ≡ inr (body ++ newline ∷ []))
                same replied)
              replied_there
            ∙ ap
                (λ o. afterwards Q token (h ∷ hs) (verdict t k (answer call o)) (record other {
                  world = v;
                  access_manager = (perform Q.order call other.access_manager).1;
                }))
                (sym same),
        (perform-Refines Q.order other.access_manager call other_sound).1.here
            ∙ ap (lock_after call) (sym same),
      )
