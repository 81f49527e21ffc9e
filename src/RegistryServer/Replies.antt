-- ===== src/RegistryServer/Replies.antt =====
-- The answer that a client gets to its own request.
use soros.Base.{
  Returned, ℕ, ◌≡◌, Bool, true, false, ◌∷◌, some, inr, ok, err, panic, exit, no_fuel, arith,
  Outcome, ◌>>=◌, ◌∙◌, ap, ◌==◌,
}
use soros.Protocol.{
  ProcId, KeyId, Bytes, RequestType, RegistryResponse, Message, registry_request, from_slice,
  to_vec, registry_response,
}
use soros.AccessManager.{AccessManagerError, request_access}
use soros.AccessManager.Calls.{perform, answer, key_of}
use soros.AccessManager.Invariant.{answer-Returned}
use soros.AccessManager.Refinement.{IsSound, perform-Refines}
use soros.Network.{Token, TcpStream}
use soros.RegistryServer.{
  Platform, Server, RegistryServerError, access_manager, answer_request, handle_message,
  handle_response, handle_error, S, unknown_holder,
}
use soros.RegistryServer.Requests.{
  handle_read, handle_data, respond, after_response, report_error, handle_request-message,
}
use soros.RegistryServer.Frame.{call_of}

-- What `handle_message` makes of the access manager's answer to a request other than a read.
abbrev pub verdict :
    RequestType
    → KeyId
    → Outcome AccessManagerError (Unit {0})
    → Outcome RegistryServerError RegistryResponse
verdict t k (ok a) = ok (RegistryResponse.success k)
verdict RequestType.write k (err (request_access p j)) = ok (RegistryResponse.wait k)
verdict t k (err e) = err (access_manager e)
verdict t k panic = panic
verdict t k exit = exit
verdict t k no_fuel = no_fuel

abbrev pub is_read : RequestType → Bool
is_read RequestType.read = true
is_read t = false

-- An answer, or an error of the access manager.
abbrev pub IsVerdict : Outcome RegistryServerError RegistryResponse → Type 0
IsVerdict (ok r) = Unit
IsVerdict (err (access_manager e)) = Unit
IsVerdict (err (unknown_holder h)) = Unit
IsVerdict other = ⊥

verdict-IsVerdict :
    (t : RequestType) (k : KeyId) (r : Outcome AccessManagerError (Unit {0}))
    → Returned r
    → IsVerdict (verdict t k r)
verdict-IsVerdict t k (ok a) h = tt
verdict-IsVerdict t k panic h = elim h [ ]
verdict-IsVerdict t k exit h = elim h [ ]
verdict-IsVerdict t k no_fuel h = elim h [ ]
verdict-IsVerdict t k (err e) h = ground arith

module _ (platform : Platform) where
  open platform use {network, serde, order, to_string}

  answer_request-verdict :
      (p : ProcId) (t : RequestType) (k : KeyId) (s : Server platform)
      → is_read t ≡ false
      → answer_request platform p t k s ≡ (
        verdict t k (perform order (call_of p t k) s.access_manager).0,
        record s { access_manager = (perform order (call_of p t k) s.access_manager).1 },
      )
  unfolding answer_request perform
  answer_request-verdict p RequestType.create k s h = ground arith
  answer_request-verdict p RequestType.delete k s h = ground arith
  answer_request-verdict p RequestType.read k s h = cc
  answer_request-verdict p RequestType.write k s h = ground arith
  answer_request-verdict p RequestType.release k s h = ground arith

  -- What is sent for a verdict.
  abbrev pub reply : Outcome RegistryServerError RegistryResponse → RegistryResponse
  reply (ok r) = r
  reply (err e) = RegistryResponse.error (to_string e)
  reply other = RegistryResponse.ack

  -- What the registry does once the reply is sent: nothing more for a refusal.
  abbrev pub afterwards :
      Token
      → Bytes
      → Outcome RegistryServerError RegistryResponse
      → Server platform
      → Outcome RegistryServerError (Unit {0}) × Server platform
  afterwards token text (ok r) s = report_error platform token (after_response platform text) s
  afterwards token text other s = (ok tt, s)

  pub handle_response-sent :
      (token : Token) (stream : TcpStream) (r : RegistryResponse) (line : Bytes) (v : network.World)
      (s : Server platform)
      → s.token_stream_map token ≡ some stream
      → to_vec serde (registry_response r) ≡ inr line
      → network.write_all stream line s.world ≡ (inr tt, v)
      → handle_response platform token r s ≡ (ok tt, record s { world = v })
  unfolding handle_response
  handle_response-sent token stream r line v s found text sent = ground arith

  -- The end of `handle_request` on a verdict, with its errors reported.
  pub settle :
      (token : Token) (text : Bytes) (call : S platform RegistryResponse)
      (x : Outcome RegistryServerError RegistryResponse) (s s1 s2 : Server platform)
      → IsVerdict x
      → call s ≡ (x, s1)
      → handle_response platform token (reply x) s1 ≡ (ok tt, s2)
      → report_error platform token (call >>= respond platform token text) s
        ≡ afterwards token text x s2
  unfolding handle_error
  settle token text call (ok r) s s1 s2 h e sent = ground arith
  settle token text call (err (access_manager q)) s s1 s2 h e sent = ground arith
  settle token text call (err (unknown_holder q)) s s1 s2 h e sent = ground arith
  settle token text call x s s1 s2 h e sent = elim h [ ]

  pub handle_data-request :
      (token : Token) (stream : TcpStream) (b : ℕ) (bs : Bytes) (m : Message) (w : network.World)
      (s : Server platform)
      → (token == s.backup_token) ≡ false
      → s.token_stream_map token ≡ some stream
      → network.read stream 256 s.world ≡ (inr (b ∷ bs), w)
      → from_slice serde (b ∷ bs) ≡ inr m
      → handle_data platform token s
        ≡ report_error platform token
            (handle_message platform m >>= respond platform token (b ∷ bs))
            (record s { world = w })
  unfolding handle_data handle_read
  handle_data-request token stream b bs m w s client found received parsed =
      ground
        (arith, handle_request-message platform token (b ∷ bs) m (record s { world = w }) parsed)

  -- The verdict on a request, by the lock of its key.
  abbrev pub verdict_of :
      ProcId → RequestType → KeyId → Server platform → Outcome RegistryServerError RegistryResponse
  verdict_of p t k s =
      let c = call_of p t k in verdict t k (answer c (s.access_manager.key_states (key_of c)))

  -- A request other than a read, that comes whole from a client: the access manager's answer, by the
  -- lock of its key, is sent to the client first, as a success, an order to wait, or the text of the
  -- error; then come the locks' other consequences, and none for an error.
  pub handle_data-reply :
      (token : Token) (stream : TcpStream) (b : ℕ) (bs line : Bytes) (p : ProcId) (t : RequestType)
      (k : KeyId) (w v : network.World) (s : Server platform)
      → IsSound s.access_manager
      → is_read t ≡ false
      → (token == s.backup_token) ≡ false
      → s.token_stream_map token ≡ some stream
      → network.read stream 256 s.world ≡ (inr (b ∷ bs), w)
      → from_slice serde (b ∷ bs) ≡ inr (registry_request k p t)
      → to_vec serde (registry_response (reply (verdict_of p t k s))) ≡ inr line
      → network.write_all stream line w ≡ (inr tt, v)
      → handle_data platform token s
        ≡ afterwards token (b ∷ bs) (verdict_of p t k s) (record s {
          world = v;
          access_manager = (perform order (call_of p t k) s.access_manager).1;
        })
  unfolding handle_message
  handle_data-reply token stream b bs line p t k w v s sound plain client found received parsed
        written sent =
      let c = call_of p t k in
      let o = s.access_manager.key_states (key_of c) in
      let m' = (perform order c s.access_manager).1 in
      handle_data-request token stream b bs (registry_request k p t) w s client found received
        parsed
      ∙ settle token (b ∷ bs) (answer_request platform p t k) (verdict t k (answer c o))
          (record s { world = w }) (record s { world = w; access_manager = m' })
          (record s { world = v; access_manager = m' })
          (verdict-IsVerdict t k (answer c o) (answer-Returned c o))
          (answer_request-verdict p t k (record s { world = w }) plain
            ∙ ap (λ r. (verdict t k r, record s { world = w; access_manager = m' }))
                (perform-Refines order s.access_manager c sound).0)
          (handle_response-sent token stream (reply (verdict t k (answer c o))) line v
            (record s { world = w; access_manager = m' }) found written sent)
