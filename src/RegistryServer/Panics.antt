-- ===== src/RegistryServer/Panics.antt =====
-- When the handlers of the registry come to an end without a panic.
use soros.Base.{
  ◌≡◌, true, List, [], ◌∷◌, inl, inr, arith, All, Ends, NoPanic, >>=-Ends, Option-cases, Outcome,
  ◌>>=◌, ◌>>◌, subst, sym,
}
use soros.Protocol.{Bytes, Message, RegistryMessage, RegistryResponse, RequestType, KeyId, ProcId}
use soros.AccessManager.{AccessGranted}
use soros.AccessManager.Calls.{perform}
use soros.Network.{Token, is_utf8}
use soros.RegistryServer.{
  Platform, Server, RegistryServerError, handle_response, handle_message, answer_request,
  proc_id_to_addr, forward_request,
}
use soros.RegistryServer.Requests.{
  notify, notify_all, parse, take_grants, count_request, after_response, respond, handle_request,
}
use soros.RegistryServer.Frame.{
  call_of, handle_response-manager, forward_request-manager, notify-manager, answer_request-manager,
}
use soros.RegistryServer.Sound.{parse-same}
use soros.RegistryServer.Grants.{IsGrant, IsSafe, perform-IsSafe, perform-NoPanic}

module _ (platform : Platform) where
  open platform use {network, serde, order}

  abbrev pub IsSafeServer : Server platform → Type 0
  IsSafeServer s = IsSafe s.access_manager

  abbrev pub EndsSafe : {A : Type 0} → Outcome RegistryServerError A × Server platform → Type 0
  EndsSafe = Ends IsSafeServer

  handle_response-NoPanic :
      (token : Token) (r : RegistryResponse) (s : Server platform)
      → NoPanic (handle_response platform token r s).0
  unfolding handle_response
  handle_response-NoPanic token r s = ground arith

  pub handle_response-EndsSafe :
      (token : Token) (r : RegistryResponse) (s : Server platform)
      → IsSafeServer s
      → EndsSafe (handle_response platform token r s)
  handle_response-EndsSafe token r s h = (
    handle_response-NoPanic token r s,
    subst IsSafe (sym (handle_response-manager platform token r s)) h,
  )

  answer_request-NoPanic :
      (p : ProcId) (t : RequestType) (k : KeyId) (s : Server platform)
      → NoPanic (perform order (call_of p t k) s.access_manager).0
      → NoPanic (answer_request platform p t k s).0
  unfolding answer_request perform proc_id_to_addr
  answer_request-NoPanic p RequestType.create k s h = ground arith
  answer_request-NoPanic p RequestType.delete k s h = ground arith
  answer_request-NoPanic p RequestType.read k s h = ground arith
  answer_request-NoPanic p RequestType.write k s h = ground arith
  answer_request-NoPanic p RequestType.release k s h = ground arith

  handle_message-EndsSafe :
      (message : Message) (s : Server platform)
      → IsSafeServer s
      → EndsSafe (handle_message platform message s)
  unfolding handle_message
  handle_message-EndsSafe (Message.registry (RegistryMessage.request p t k)) s h = (
    answer_request-NoPanic p t k s (perform-NoPanic order (call_of p t k) s.access_manager h),
    subst IsSafe (sym (answer_request-manager platform p t k s))
        (perform-IsSafe order (call_of p t k) s.access_manager h),
  )
  handle_message-EndsSafe (Message.registry RegistryMessage.stop_request) s h = (tt, h)
  handle_message-EndsSafe (Message.registry (RegistryMessage.connection_established i)) s h =
      (tt, h)
  handle_message-EndsSafe (Message.registry (RegistryMessage.connection i)) s h = (tt, h)
  handle_message-EndsSafe (Message.registry (RegistryMessage.response r)) s h = (tt, h)
  handle_message-EndsSafe (Message.data_message d) s h = (tt, h)

  notify-NoPanic :
      (g : AccessGranted) (s : Server platform) → IsGrant g → NoPanic (notify platform g s).0
  unfolding notify proc_id_to_addr
  notify-NoPanic (p, k, RequestType.read, a) s i = elim (Option-cases (s.token_addr_map a)) [
    | inl e ↦ ground arith
    | inr (addr, e) ↦ ground (arith, handle_response-NoPanic p (RegistryResponse.holder k addr) s)
  ]
  notify-NoPanic (p, k, RequestType.write, a) s i =
      ground (arith, handle_response-NoPanic p (RegistryResponse.success k) s)
  notify-NoPanic (p, k, RequestType.create, a) s i = elim i [ ]
  notify-NoPanic (p, k, RequestType.delete, a) s i = elim i [ ]
  notify-NoPanic (p, k, RequestType.release, a) s i = elim i [ ]

  notify-EndsSafe :
      (g : AccessGranted) (s : Server platform)
      → IsGrant g
      → IsSafeServer s
      → EndsSafe (notify platform g s)
  notify-EndsSafe g s i h =
      (notify-NoPanic g s i, subst IsSafe (sym (notify-manager platform g s)) h)

  notify_all-EndsSafe :
      (gs : List AccessGranted) (s : Server platform)
      → All IsGrant gs
      → IsSafeServer s
      → EndsSafe (notify_all platform gs s)
  unfolding notify_all
  notify_all-EndsSafe [] s i h = (tt, h)
  notify_all-EndsSafe (g ∷ gs) s (i, is) h =
      >>=-Ends IsSafeServer IsSafeServer (notify platform g) (λ _. notify_all platform gs)
        (λ s1 h1. h1) (λ _ s1 h1. notify_all-EndsSafe gs s1 is h1) s (notify-EndsSafe g s i h)

  take_grants-EndsSafe : (s : Server platform) → IsSafeServer s → EndsSafe (take_grants platform s)
  take_grants-EndsSafe s h = (
    tt,
    record {
      sound = record { connected = h.sound.connected; locks = h.sound.locks };
      grants_only = tt;
    },
  )

  forward_request-EndsSafe :
      (text : Bytes) (s : Server platform)
      → IsSafeServer s
      → EndsSafe (forward_request platform text s)
  unfolding forward_request
  forward_request-EndsSafe text s h =
      (ground arith, subst IsSafe (sym (forward_request-manager platform text s)) h)

  count_request-EndsSafe :
      (s : Server platform) → IsSafeServer s → EndsSafe (count_request platform s)
  unfolding count_request
  count_request-EndsSafe s h = (ground arith, h)

  after_response-EndsSafe :
      (text : Bytes) (s : Server platform)
      → IsSafeServer s
      → EndsSafe (after_response platform text s)
  unfolding after_response
  after_response-EndsSafe text s h =
      >>=-Ends IsSafeServer IsSafeServer
        (λ s'. notify_all platform s.access_manager.access_granted.sent s')
        (λ _. forward_request platform text >> count_request platform) (λ s1 h1. h1)
        (λ _ s1 h1.
          >>=-Ends IsSafeServer IsSafeServer (forward_request platform text)
            (λ _. count_request platform) (λ s2 h2. h2) (λ _. count_request-EndsSafe) s1
            (forward_request-EndsSafe text s1 h1))
        (take_grants platform s).1
        (notify_all-EndsSafe s.access_manager.access_granted.sent (take_grants platform s).1
          h.grants_only (take_grants-EndsSafe s h).1)

  -- A request, from bytes that are text, ends without a panic.
  pub handle_request-EndsSafe :
      (token : Token) (text : Bytes) (s : Server platform)
      → is_utf8 text ≡ true
      → IsSafeServer s
      → EndsSafe (handle_request platform token text s)
  unfolding handle_request
  handle_request-EndsSafe token text s u h =
      >>=-Ends IsSafeServer IsSafeServer (parse platform text)
        (λ message. handle_message platform message >>= respond platform token text) (λ s1 h1. h1)
        (λ message s1 h1.
          >>=-Ends IsSafeServer IsSafeServer (handle_message platform message)
            (respond platform token text) (λ s2 h2. h2)
            (λ r s2 h2.
              >>=-Ends IsSafeServer IsSafeServer (handle_response platform token r)
                (λ _. after_response platform text) (λ s3 h3. h3)
                (λ _. after_response-EndsSafe text) s2 (handle_response-EndsSafe token r s2 h2))
            s1 (handle_message-EndsSafe message s1 h1))
        s (ground (arith, u), subst IsSafeServer (sym (parse-same platform text s)) h)
