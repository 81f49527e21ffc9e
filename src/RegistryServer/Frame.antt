-- ===== src/RegistryServer/Frame.antt =====
-- Which steps of the server leave the locks alone, and what a request makes of them.
use soros.Base.{◌≡◌, refl, List, [], ◌∷◌, inl, inr, arith, Option-cases}
use soros.Protocol.{ProcId, KeyId, Bytes, RegistryResponse, RequestType}
use soros.AccessManager.{AccessGranted}
use soros.AccessManager.Calls.{Call, create, read, write, release, delete, perform}
use soros.Network.{Token}
use soros.RegistryServer.{
  Platform, Server, proc_id_to_addr, handle_response, forward_request, answer_request,
}
use soros.RegistryServer.Requests.{notify, notify_all}

-- The call that a request makes.
abbrev pub call_of : ProcId → RequestType → KeyId → Call
call_of p RequestType.create k = create p k
call_of p RequestType.delete k = delete k
call_of p RequestType.read k = read p k
call_of p RequestType.write k = write p k
call_of p RequestType.release k = release p k

module _ (platform : Platform) where
  open platform use {serde, order}

  pub handle_response-manager :
      (token : Token) (r : RegistryResponse) (s : Server platform)
      → (handle_response platform token r s).1.access_manager ≡ s.access_manager
  unfolding handle_response
  handle_response-manager token r s = ground arith

  pub forward_request-manager :
      (text : Bytes) (s : Server platform)
      → (forward_request platform text s).1.access_manager ≡ s.access_manager
  unfolding forward_request
  forward_request-manager text s = ground arith

  pub proc_id_to_addr-same :
      (p : ProcId) (s : Server platform) → (proc_id_to_addr platform p s).1 ≡ s
  unfolding proc_id_to_addr
  proc_id_to_addr-same p s = ground arith

  pub notify-manager :
      (req : AccessGranted) (s : Server platform)
      → (notify platform req s).1.access_manager ≡ s.access_manager
  unfolding notify proc_id_to_addr
  notify-manager (p, k, RequestType.read, h) s = elim (Option-cases (s.token_addr_map h)) [
    | inl e ↦ ground arith
    | inr (addr, e) ↦ ground (arith, handle_response-manager p (RegistryResponse.holder k addr) s)
  ]
  notify-manager (p, k, RequestType.write, h) s =
      handle_response-manager p (RegistryResponse.success k) s
  notify-manager (p, k, RequestType.create, h) s = refl
  notify-manager (p, k, RequestType.delete, h) s = refl
  notify-manager (p, k, RequestType.release, h) s = refl

  pub notify_all-manager :
      (reqs : List AccessGranted) (s : Server platform)
      → (notify_all platform reqs s).1.access_manager ≡ s.access_manager
  unfolding notify_all
  notify_all-manager [] s = refl
  notify_all-manager (req ∷ reqs) s =
      ground (arith, notify-manager req s, notify_all-manager reqs (notify platform req s).1)

  pub answer_request-manager :
      (p : ProcId) (t : RequestType) (k : KeyId) (s : Server platform)
      → (answer_request platform p t k s).1.access_manager
        ≡ (perform order (call_of p t k) s.access_manager).1
  unfolding answer_request perform proc_id_to_addr
  answer_request-manager p RequestType.create k s = ground arith
  answer_request-manager p RequestType.delete k s = ground arith
  answer_request-manager p RequestType.read k s = ground arith
  answer_request-manager p RequestType.write k s = ground arith
  answer_request-manager p RequestType.release k s = ground arith
