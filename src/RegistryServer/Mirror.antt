-- ===== src/RegistryServer/Mirror.antt =====
-- The secondary registry repeats the requests of the primary: what a request makes of the locks is
-- a function of its bytes, whatever becomes of the answers.
use soros.Base.{
  ◌≡◌, refl, List, [], ◌∷◌, ◌⊎◌, inl, inr, arith, ◌∙◌, sym, ap, fun_ext, ◌==◌, if◌then◌else◌,
  Bool-cases, ==_iff, >>=-keeps, ◌>>=◌, map, ap₂,
}
use soros.Base.HashMap.{HashMap}
use soros.Protocol.{Bytes, Message, RegistryMessage, RegistryResponse, SerdeError, from_slice}
use soros.AccessManager.{AccessManager, KeyState}
use soros.AccessManager.Calls.{Call, key_of, perform, lock_after}
use soros.AccessManager.Refinement.{IsSound, perform-Refines}
use soros.Network.{Token}
use soros.RegistryServer.{Platform, Server, handle_response, handle_message}
use soros.RegistryServer.Requests.{
  respond, handle_request-message, notify_all, take_grants, count_request, after_response,
  handle_request,
}
use soros.RegistryServer.Sound.{handle_request-IsSound}
use soros.RegistryServer.Frame.{
  call_of, handle_response-manager, forward_request-manager, notify_all-manager,
  answer_request-manager,
}

abbrev pub Locks : Type 0
Locks = HashMap KeyState

unfoldable pub lock_step : Call → Locks → Locks
lock_step c locks j = if key_of c == j then lock_after c (locks (key_of c)) else locks j

-- The locks after a message, and after the bytes of one.
unfoldable pub message_step : Message → Locks → Locks
message_step (Message.registry (RegistryMessage.request p t k)) locks =
    lock_step (call_of p t k) locks
message_step other locks = locks

unfoldable pub text_step : SerdeError ⊎ Message → Locks → Locks
text_step (inl e) locks = locks
text_step (inr message) locks = message_step message locks

⊎-cases : {A B : Type 0} (x : A ⊎ B) → ((a : A) × (x ≡ inl a)) ⊎ ((b : B) × (x ≡ inr b))
⊎-cases (inl a) = inl (a, refl)
⊎-cases (inr b) = inr (b, refl)

module _ (platform : Platform) where
  open platform use {serde, order}

  abbrev pub locks_of : Server platform → Locks
  locks_of s = s.access_manager.key_states

  perform-lock_step :
      (c : Call) (m : AccessManager)
      → IsSound m
      → (perform order c m).1.key_states ≡ lock_step c m.key_states
  unfolding lock_step
  perform-lock_step c m sound = fun_ext λ j.
      let (r, f) = perform-Refines order m c sound in
      elim (Bool-cases (key_of c == j)) [
        | inl same ↦ rw (same, ← (==_iff (key_of c) j).0 same) f.here
        | inr other ↦ rw other (f.others j other)
      ]

  handle_message-locks :
      (message : Message) (s : Server platform)
      → IsSound s.access_manager
      → locks_of (handle_message platform message s).1 ≡ message_step message (locks_of s)
  unfolding handle_message message_step
  handle_message-locks (Message.registry (RegistryMessage.request p t k)) s sound =
      ap (λ m. m.key_states) (answer_request-manager platform p t k s)
      ∙ perform-lock_step (call_of p t k) s.access_manager sound
  handle_message-locks (Message.registry RegistryMessage.stop_request) s sound = refl
  handle_message-locks (Message.registry (RegistryMessage.connection_established i)) s sound = refl
  handle_message-locks (Message.registry (RegistryMessage.connection i)) s sound = refl
  handle_message-locks (Message.registry (RegistryMessage.response r)) s sound = refl
  handle_message-locks (Message.data_message d) s sound = refl

  after_response-locks :
      (text : Bytes) (s : Server platform)
      → locks_of (after_response platform text s).1 ≡ locks_of s
  unfolding after_response count_request
  after_response-locks text s =
      let s1 : Server platform = (take_grants platform s).1 in
      let s2 : Server platform = (notify_all platform s.access_manager.access_granted.sent s1).1 in
      ground (
        arith,
        notify_all-manager platform s.access_manager.access_granted.sent s1,
        forward_request-manager platform text s2,
      )

  finish-locks :
      (token : Token) (text : Bytes) (r : RegistryResponse) (s : Server platform)
      → locks_of (respond platform token text r s).1 ≡ locks_of s
  finish-locks token text r s = ground (
    arith,
    handle_response-manager platform token r s,
    after_response-locks text (handle_response platform token r s).1,
  )

  from_slice-cases :
      (text : Bytes)
      → ((e : SerdeError) × (from_slice serde text ≡ inl e))
        ⊎ ((message : Message) × (from_slice serde text ≡ inr message))
  from_slice-cases text = ⊎-cases (from_slice serde text)

  refused-locks :
      (token : Token) (text : Bytes) (e : SerdeError) (s : Server platform)
      → from_slice serde text ≡ inl e
      → locks_of (handle_request platform token text s).1 ≡ locks_of s
  unfolding handle_request
  refused-locks token text e s p = ground arith

  answered-locks :
      (token : Token) (text : Bytes) (message : Message) (s : Server platform)
      → IsSound s.access_manager
      → locks_of ((handle_message platform message >>= respond platform token text) s).1
        ≡ message_step message (locks_of s)
  answered-locks token text message s sound =
      >>=-keeps locks_of (handle_message platform message) (respond platform token text)
        (finish-locks token text) s
      ∙ handle_message-locks message s sound

  -- Whatever the network does: after a request the locks are those that its message makes of the
  -- locks before, and they are as before if its bytes are no message.
  pub handle_request-locks :
      (token : Token) (text : Bytes) (s : Server platform)
      → IsSound s.access_manager
      → locks_of (handle_request platform token text s).1
        ≡ text_step (from_slice serde text) (locks_of s)
  unfolding text_step
  handle_request-locks token text s sound = elim (from_slice-cases text) [
    | inl (e, p) ↦ refused-locks token text e s p ∙ ap (λ r. text_step r (locks_of s)) (sym p)
    | inr (message, p) ↦
        ap (λ x. locks_of x.1) (handle_request-message platform token text message s p)
        ∙ (answered-locks token text message s sound ∙ ap (λ r. text_step r (locks_of s)) (sym p))
  ]

-- The requests of some clients, handled one after the other, each from the state that the one before
-- has left, as if no exit ended the process.
unfoldable pub serve :
    (platform : Platform) → List (Token × Bytes) → Server platform → Server platform
serve platform [] s = s
serve platform ((token, text) ∷ log) s = serve platform log (handle_request platform token text s).1

-- The same requests, as they come through the connection `token`.
abbrev pub through : Token → List (Token × Bytes) → List (Token × Bytes)
through token = map (λ r. (token, r.1))

pub serve-IsSound :
    (platform : Platform) (log : List (Token × Bytes)) (s : Server platform)
    → IsSound s.access_manager
    → IsSound (serve platform log s).access_manager
unfolding serve
serve-IsSound platform [] s h = h
serve-IsSound platform ((token, text) ∷ log) s h =
    serve-IsSound platform log (handle_request platform token text s).1
      (handle_request-IsSound platform token text s h)

module _ (P Q : Platform)
    (same_format : (text : Bytes) → from_slice P.serde text ≡ from_slice Q.serde text) where
  -- Two registries that agree on the locks and handle the same requests agree on the locks again,
  -- on whatever connections the requests come, whatever becomes of the answers and in whatever
  -- order each iterates over its sets.
  pub mirror_agrees :
      (token : Token) (log : List (Token × Bytes)) (p : Server P) (b : Server Q)
      → IsSound p.access_manager
      → IsSound b.access_manager
      → locks_of P p ≡ locks_of Q b
      → locks_of P (serve P log p) ≡ locks_of Q (serve Q (through token log) b)
  unfolding serve
  mirror_agrees token [] p b hp hb e = e
  mirror_agrees token ((t, text) ∷ log) p b hp hb e =
      mirror_agrees token log (handle_request P t text p).1 (handle_request Q token text b).1
        (handle_request-IsSound P t text p hp) (handle_request-IsSound Q token text b hb)
        (handle_request-locks P t text p hp
          ∙ (ap₂ text_step (same_format text) e ∙ sym (handle_request-locks Q token text b hb)))
