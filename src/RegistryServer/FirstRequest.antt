-- ===== src/RegistryServer/FirstRequest.antt =====
-- A primary registry ends with its first request.
use soros.Base.{
  ℕ, ◌≡◌, ◌≢◌, true, List, [], ◌∷◌, inl, inr, ok, arith, ◌>>=◌, ◌>>◌, >>=-preserves, Option-cases,
  >>=-ne-ok, is_some, exit,
}
use soros.Protocol.{Bytes, Message, RegistryMessage, RequestType, RegistryResponse}
use soros.AccessManager.{AccessGranted}
use soros.Network.{Token}
use soros.RegistryServer.{
  Platform, Server, handle_response, handle_message, forward_request, answer_request,
  proc_id_to_addr,
}
use soros.RegistryServer.Requests.{
  handle_request, notify, notify_all, count_request, take_grants, parse, respond, after_response,
}

module _ (platform : Platform) where
  -- A primary, with a secondary, that has not completed a request.
  abbrev pub IsFresh : Server platform → Type 0
  IsFresh s = (is_some s.backup_stream ≡ true) × (s.request_counter ≡ 0)

  handle_response-IsFresh :
      (token : Token) (r : RegistryResponse) (s : Server platform)
      → IsFresh s
      → IsFresh (handle_response platform token r s).1
  unfolding handle_response
  handle_response-IsFresh token r s h = ground arith

  forward_request-IsFresh :
      (text : Bytes) (s : Server platform) → IsFresh s → IsFresh (forward_request platform text s).1
  unfolding forward_request
  forward_request-IsFresh text s h = ground arith

  answer_request-IsFresh :
      (p : ℕ) (t : RequestType) (k : ℕ) (s : Server platform)
      → IsFresh s
      → IsFresh (answer_request platform p t k s).1
  unfolding answer_request proc_id_to_addr
  answer_request-IsFresh p RequestType.create k s h = ground arith
  answer_request-IsFresh p RequestType.delete k s h = ground arith
  answer_request-IsFresh p RequestType.read k s h = ground arith
  answer_request-IsFresh p RequestType.write k s h = ground arith
  answer_request-IsFresh p RequestType.release k s h = ground arith

  handle_message-IsFresh :
      (message : Message) (s : Server platform)
      → IsFresh s
      → IsFresh (handle_message platform message s).1
  unfolding handle_message
  handle_message-IsFresh (Message.registry (RegistryMessage.request p t k)) s h =
      answer_request-IsFresh p t k s h
  handle_message-IsFresh (Message.registry RegistryMessage.stop_request) s h = h
  handle_message-IsFresh (Message.registry (RegistryMessage.connection_established i)) s h = h
  handle_message-IsFresh (Message.registry (RegistryMessage.connection i)) s h = h
  handle_message-IsFresh (Message.registry (RegistryMessage.response r)) s h = h
  handle_message-IsFresh (Message.data_message d) s h = h

  notify-IsFresh :
      (req : AccessGranted) (s : Server platform) → IsFresh s → IsFresh (notify platform req s).1
  unfolding notify proc_id_to_addr
  notify-IsFresh (p, k, RequestType.read, a) s h = elim (Option-cases (s.token_addr_map a)) [
    | inl e ↦ ground arith
    | inr (addr, e) ↦ ground (arith, handle_response-IsFresh p (RegistryResponse.holder k addr) s h)
  ]
  notify-IsFresh (p, k, RequestType.write, a) s h =
      handle_response-IsFresh p (RegistryResponse.success k) s h
  notify-IsFresh (p, k, RequestType.create, a) s h = h
  notify-IsFresh (p, k, RequestType.delete, a) s h = h
  notify-IsFresh (p, k, RequestType.release, a) s h = h

  notify_all-IsFresh :
      (reqs : List AccessGranted) (s : Server platform)
      → IsFresh s
      → IsFresh (notify_all platform reqs s).1
  unfolding notify_all
  notify_all-IsFresh [] s h = h
  notify_all-IsFresh (req ∷ reqs) s h =
      >>=-preserves IsFresh (notify platform req) (λ _. notify_all platform reqs)
        (notify-IsFresh req) (λ _ s1 h1. notify_all-IsFresh reqs s1 h1) s h

  count_request-exit : (s : Server platform) → IsFresh s → (count_request platform s).0 ≡ exit
  unfolding count_request
  count_request-exit s h = ground arith

  after_response-ne-ok :
      (text : Bytes) (s : Server platform) → IsFresh s → (after_response platform text s).0 ≢ ok tt
  unfolding after_response
  after_response-ne-ok text s h =
      >>=-ne-ok IsFresh (take_grants platform)
        (λ reqs.
          notify_all platform reqs >> (forward_request platform text >> count_request platform))
        tt (λ s1 h1. h1)
        (λ reqs.
          >>=-ne-ok IsFresh (notify_all platform reqs)
            (λ _. forward_request platform text >> count_request platform) tt
            (notify_all-IsFresh reqs)
            (λ _.
              >>=-ne-ok IsFresh (forward_request platform text) (λ _. count_request platform) tt
                (forward_request-IsFresh text)
                (λ _ s3 h3 e. ground (arith, count_request-exit s3 h3))))
        s h

  -- A primary never completes a request: where the handling of its first one does not fail, the
  -- process exits.
  pub handle_request-ne-ok :
      (token : Token) (text : Bytes) (s : Server platform)
      → IsFresh s
      → (handle_request platform token text s).0 ≢ ok tt
  unfolding handle_request
  handle_request-ne-ok token text s h =
      >>=-ne-ok IsFresh (parse platform text)
        (λ message. handle_message platform message >>= respond platform token text) tt
        (λ s1 h1. ground arith)
        (λ message.
          >>=-ne-ok IsFresh (handle_message platform message) (respond platform token text) tt
            (handle_message-IsFresh message)
            (λ r.
              >>=-ne-ok IsFresh (handle_response platform token r)
                (λ _. after_response platform text) tt (handle_response-IsFresh token r)
                (λ _. after_response-ne-ok text)))
        s h
