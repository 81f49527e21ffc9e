-- ===== src/Session.antt =====
-- A client and its registry: the calls of protocol_client.rs on one side, handle_data of
-- registry_server.rs on the other, each on its own network.
pub mod Lines
pub mod Grant
pub mod Failover
pub mod WaitingWrite
mod WaitingTests
mod FailoverTests
mod Tests
use soros.Base.{
  ℕ, ◌≡◌, refl, Bool, true, false, List, [], ◌∷◌, ◌++◌, some, inl, inr, Outcome, ok, err, panic,
  exit, no_fuel, All, length, ◌<◌, arith, ap, ◌∙◌, sym, String, Returned, ◌==◌,
}
use soros.Protocol.{
  KeyId, ProcId, Bytes, Serde, RegistryResponse, RequestType, newline, registry_request,
  registry_response, to_vec, from_slice,
}
use soros.AccessManager.{AccessManagerError, KeyState}
use soros.AccessManager.Calls.{Call, perform, answer, lock_after, key_of}
use soros.AccessManager.Invariant.{answer-Returned}
use soros.AccessManager.Refinement.{IsSound, perform-Refines}
use soros.Network.{Network, TcpStream, Token}
use soros.RegistryServer.{Platform, Server, RegistryServerError, access_manager}
use soros.RegistryServer.Requests.{handle_data}
use soros.RegistryServer.Frame.{call_of}
use soros.RegistryServer.Replies.{
  verdict, verdict_of, reply, afterwards, is_read, handle_data-reply,
}
use soros.ProtocolClient.{ProtocolClientError, Client, registry_error, has_newline, receive_message}
use soros.ProtocolClient.Framing.{joined, Gives, NoNewline, receive_message-line}
use soros.ProtocolClient.Answers.{ask, IsAsked, received, concluded, ask-concluded}

module _ (platform : Platform) (ours : Network) where
  open platform use {network, serde, order, to_string}

  -- How a client's call ends, by the access manager's answer.
  abbrev pub outcome_of :
      Outcome AccessManagerError (Unit {0}) → Outcome ProtocolClientError (Unit {0})
  outcome_of (ok a) = ok tt
  outcome_of (err e) = err (registry_error (to_string (access_manager e)))
  outcome_of panic = panic
  outcome_of exit = exit
  outcome_of no_fuel = no_fuel

  concluded-verdict :
      (t : RequestType) (k : KeyId) (r : Outcome AccessManagerError (Unit {0}))
      → IsAsked t
      → Returned r
      → concluded k (reply platform (verdict t k r)) ≡ outcome_of r
  concluded-verdict t k (ok a) h n = ground arith
  concluded-verdict RequestType.create k (err e) h n = refl
  concluded-verdict RequestType.delete k (err e) h n = refl
  concluded-verdict RequestType.release k (err e) h n = refl
  concluded-verdict RequestType.read k (err e) h n = elim h [ ]
  concluded-verdict RequestType.write k (err e) h n = elim h [ ]
  concluded-verdict t k panic h n = elim n [ ]
  concluded-verdict t k exit h n = elim n [ ]
  concluded-verdict t k no_fuel h n = elim n [ ]

  plain : (t : RequestType) → IsAsked t → is_read t ≡ false
  plain RequestType.create h = refl
  plain RequestType.delete h = refl
  plain RequestType.release h = refl
  plain RequestType.read h = elim h [ ]
  plain RequestType.write h = elim h [ ]

  -- A client creates, deletes or releases a key. If the request comes to the registry whole, and the
  -- registry's reply, one line, comes to the client, in one read or in pieces, then the client's call
  -- ends as the access manager answers by the lock of the key, an error with its text; the lock has
  -- made its step, and the registry goes on to tell others only if it did not refuse.
  pub ask-handle_data :
      (t : RequestType) (k : KeyId) (token : Token) (stream : TcpStream) (b : ℕ) (bs body : Bytes)
      (s : Server platform) (w v : network.World) (c : Client ours serde) (seen : Bytes)
      (w1 w2 w3 w4 : ours.World) (chunks : List Bytes) (last : Bytes) (fuel : ℕ)
      → IsAsked t
      → IsSound s.access_manager
      → (token == s.backup_token) ≡ false
      → s.token_stream_map token ≡ some stream
      → to_vec serde (registry_request k c.proc_id t) ≡ inr (b ∷ bs)
      → from_slice serde (b ∷ bs) ≡ inr (registry_request k c.proc_id t)
      → ours.write_all c.registry_stream (b ∷ bs) c.world ≡ (inr tt, w1)
      → ours.peek c.registry_stream w1 ≡ (inr seen, w2)
      → network.read stream 256 s.world ≡ (inr (b ∷ bs), w)
      → to_vec serde (registry_response (reply platform (verdict_of platform c.proc_id t k s)))
        ≡ inr (body ++ newline ∷ [])
      → from_slice serde body
        ≡ inr (registry_response (reply platform (verdict_of platform c.proc_id t k s)))
      → has_newline body ≡ false
      → network.write_all stream (body ++ newline ∷ []) w ≡ (inr tt, v)
      → Gives ours serde c.registry_stream chunks w2 w3
      → All (NoNewline ours serde c.registry_stream) chunks
      → ours.read c.registry_stream 32 w3 ≡ (inr last, w4)
      → has_newline last ≡ true
      → length chunks < fuel
      → c.curr_data ≡ []
      → joined chunks ++ last ≡ body ++ newline ∷ []
      → let call = call_of c.proc_id t k in
        let o = s.access_manager.key_states (key_of call) in
        let m' = (perform order call s.access_manager).1 in
        (ask ours serde t fuel k c ≡ (outcome_of (answer call o), received ours serde c ([], w4)))
        × (handle_data platform token s
            ≡ afterwards platform token
                (b ∷ bs)
                (verdict_of platform c.proc_id t k s)
                (record s { world = v; access_manager = m' }))
        × (m'.key_states (key_of call) ≡ lock_after call o)
  ask-handle_data t k token stream b bs body s w v c seen w1 w2 w3 w4 chunks last fuel h sound
        client found asked parsed sent peeked got written read_back one_line replied g n r l f empty
        pieces =
      let call = call_of c.proc_id t k in
      let o = s.access_manager.key_states (key_of call) in
      let x = verdict_of platform c.proc_id t k s in
      (
        ask-concluded ours serde t fuel k c (b ∷ bs) seen w1 w2 (reply platform x) ([], w4) h asked
              sent peeked
              (receive_message-line ours serde c.registry_stream chunks last fuel c.curr_data body
                [] w2 w3 w4 (registry_response (reply platform x)) g n r l f
                (ap (λ d. d ++ (joined chunks ++ last)) empty ∙ pieces) one_line read_back)
            ∙ ap (λ e. (e, received ours serde c ([], w4)))
                (concluded-verdict t k (answer call o) h (answer-Returned call o)),
        handle_data-reply platform token stream b bs (body ++ newline ∷ []) c.proc_id t k w v s
            sound (plain t h) client found got parsed written replied,
        (perform-Refines order s.access_manager call sound).1.here,
      )
