-- ===== src/RegistryServer/Sound.antt =====
-- The server keeps the locks well formed: every handler, on every branch.
use soros.Base.{◌≡◌, sym, subst, ◌>>=◌, >>=-preserves, ◌>>◌, arith}
use soros.Protocol.{Bytes, Message, RegistryMessage}
use soros.AccessManager.Refinement.{IsSound}
use soros.AccessManager.Invariant.{perform-IsSound}
use soros.Network.{Token}
use soros.RegistryServer.{Platform, Server, handle_response, handle_message, forward_request}
use soros.RegistryServer.Requests.{
  notify_all, take_grants, after_response, handle_request, parse, count_request, respond,
}
use soros.RegistryServer.Frame.{
  call_of, handle_response-manager, forward_request-manager, notify_all-manager,
  answer_request-manager,
}

module _ (platform : Platform) where
  open platform use {serde, order}

  abbrev pub IsSoundServer : Server platform → Type 0
  IsSoundServer s = IsSound s.access_manager

  handle_message-IsSound :
      (message : Message) (s : Server platform)
      → IsSoundServer s
      → IsSoundServer (handle_message platform message s).1
  unfolding handle_message
  handle_message-IsSound (Message.registry (RegistryMessage.request p t k)) s sound =
      subst IsSound (sym (answer_request-manager platform p t k s))
        (perform-IsSound order (call_of p t k) s.access_manager sound)
  handle_message-IsSound (Message.registry RegistryMessage.stop_request) s sound = sound
  handle_message-IsSound (Message.registry (RegistryMessage.connection_established i)) s sound =
      sound
  handle_message-IsSound (Message.registry (RegistryMessage.connection i)) s sound = sound
  handle_message-IsSound (Message.registry (RegistryMessage.response r)) s sound = sound
  handle_message-IsSound (Message.data_message d) s sound = sound

  take_grants-IsSound :
      (s : Server platform) → IsSoundServer s → IsSoundServer (take_grants platform s).1
  take_grants-IsSound s sound = record { connected = sound.connected; locks = sound.locks }

  after_response-IsSound :
      (text : Bytes) (s : Server platform)
      → IsSoundServer s
      → IsSoundServer (after_response platform text s).1
  unfolding after_response count_request
  after_response-IsSound text s sound =
      >>=-preserves IsSoundServer (take_grants platform)
        (λ reqs.
          notify_all platform reqs >> (forward_request platform text >> count_request platform))
        take_grants-IsSound
        (λ reqs s1 h1.
          >>=-preserves IsSoundServer (notify_all platform reqs)
            (λ _. forward_request platform text >> count_request platform)
            (λ s2 h2. subst IsSound (sym (notify_all-manager platform reqs s2)) h2)
            (λ _ s3 h3.
              >>=-preserves IsSoundServer (forward_request platform text)
                (λ _. count_request platform)
                (λ s4 h4. subst IsSound (sym (forward_request-manager platform text s4)) h4)
                (λ _ s5 h5. h5) s3 h3)
            s1 h1)
        s sound

  pub parse-same : (text : Bytes) (s : Server platform) → (parse platform text s).1 ≡ s
  parse-same text s = ground arith

  parse-IsSound :
      (text : Bytes) (s : Server platform)
      → IsSoundServer s
      → IsSoundServer (parse platform text s).1
  parse-IsSound text s sound = subst IsSoundServer (sym (parse-same text s)) sound

  -- A request keeps the locks well formed, also when its answer cannot be sent.
  pub handle_request-IsSound :
      (token : Token) (text : Bytes) (s : Server platform)
      → IsSoundServer s
      → IsSoundServer (handle_request platform token text s).1
  unfolding handle_request
  handle_request-IsSound token text s sound =
      >>=-preserves IsSoundServer (parse platform text)
        (λ message. handle_message platform message >>= respond platform token text)
        (parse-IsSound text)
        (λ message s1 h1.
          >>=-preserves IsSoundServer (handle_message platform message)
            (respond platform token text) (handle_message-IsSound message)
            (λ r s2 h2.
              >>=-preserves IsSoundServer (handle_response platform token r)
                (λ _. after_response platform text)
                (λ s3 h3. subst IsSound (sym (handle_response-manager platform token r s3)) h3)
                (λ _ s4 h4. after_response-IsSound text s4 h4) s2 h2)
            s1 h1)
        s sound
