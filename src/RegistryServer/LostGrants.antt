-- ===== src/RegistryServer/LostGrants.antt =====
-- What happens to the waiting readers when the creator of their key has gone.
use soros.Base.{◌≡◌, true, List, [], ◌∷◌, none, some, inr, ok, err, arith, map, ℕ, All, subst}
use soros.Protocol.{
  ProcId, KeyId, Bytes, RequestType, RegistryResponse, registry_request, from_slice,
}
use soros.AccessManager.{AccessManager, KeyState, AccessGranted}
use soros.AccessManager
use soros.AccessManager.Lock.{Request, grants, next_served, leading_readers}
use soros.AccessManager.Release.{holds, is_free, vacate, after_release, let_in, release-Effect}
use soros.AccessManager.Access.{HasAccess, let_in-holds}
use soros.AccessManager.Refinement.{IsSound}
use soros.Network.{Token}
use soros.RegistryServer.{
  Platform, Server, unknown_holder, handle_response, handle_message, answer_request,
  proc_id_to_addr,
}
use soros.RegistryServer.Requests.{
  handle_request, handle_request-message, after_response, notify_all, notify, take_grants,
}

first-All : {A : Type 0} (P : A → Type 0) (a : A) (bs xs : List A) → xs ≡ a ∷ bs → All P xs → P a
first-All P a bs xs e h = (subst (All P) e h).0

-- The loop over the grants stops at a read whose holder is unknown, with the channel emptied.
after_response-lost :
    (platform : Platform) (text : Bytes) (s : Server platform) (q k h : ℕ)
    (more : List AccessGranted)
    → s.access_manager.access_granted.sent ≡ (q, k, RequestType.read, h) ∷ more
    → s.token_addr_map h ≡ none
    → after_response platform text s ≡ (err (unknown_holder h), (take_grants platform s).1)
unfolding after_response notify_all notify proc_id_to_addr
after_response-lost platform text s q k h more e gone = ground arith

module _ (platform : Platform) (s : Server platform) (p : ProcId) (k : KeyId) (ks : KeyState)
    (q : ProcId) (rest : List Request) (sound : IsSound s.access_manager)
    (found : s.access_manager.key_states k ≡ some ks) (held : holds p ks ≡ true)
    (last : is_free (vacate p ks) ≡ true)
    (queue : ks.pending_request ≡ (q, RequestType.read) ∷ rest)
    (drained : s.access_manager.access_granted.sent ≡ [])
    (gone : s.token_addr_map ks.creator ≡ none) where
  open platform use {serde, order, network}

  abbrev released : Server platform
  released = record s { access_manager = (AccessManager.release order p k s.access_manager).1 }

  released-answer :
      handle_message platform (registry_request k p RequestType.release) s
      ≡ (ok (RegistryResponse.success k), released)
  unfolding handle_message answer_request
  released-answer = ground (
    arith,
    release-Effect order p k ks s.access_manager (sound.locks k ks found) held sound.connected
        found,
  )

  released-sent :
      released.access_manager.access_granted.sent
      ≡ (q, k, RequestType.read, ks.creator)
        ∷ grants k ks.creator (map (λ r. (r, RequestType.read)) (leading_readers rest))
  unfolding let_in next_served
  released-sent = ground (
    arith,
    release-Effect order p k ks s.access_manager (sound.locks k ks found) held sound.connected
        found,
  )

  waiting-holds : holds q (after_release p ks) ≡ true
  unfolding let_in next_served
  waiting-holds =
      first-All (HasAccess (after_release p ks)) (q, RequestType.read) _ (let_in p ks) let_in_front
        (let_in-holds p ks)
    where
      let_in_front :
          let_in p ks
          ≡ (q, RequestType.read) ∷ map (λ r. (r, RequestType.read)) (leading_readers rest)
      let_in_front = ground arith

  -- The last holder of `k` releases it while a read waits, and the creator of `k` has disconnected.
  -- If the answer to the release itself can be sent, then the request fails for the unknown creator;
  -- the waiting processes have been given the lock, the messages that would tell them are taken off
  -- the channel, and nothing but the answer to the release has been written to anybody.
  pub handle_request-lost :
      (token : Token) (text : Bytes) (w : network.World)
      → from_slice serde text ≡ inr (registry_request k p RequestType.release)
      → handle_response platform token (RegistryResponse.success k) released
        ≡ (ok tt, record released { world = w })
      → let (r, s') = handle_request platform token text s in
        (r ≡ err (unknown_holder ks.creator))
        × (s'.access_manager.key_states k ≡ some (after_release p ks))
        × (holds q (after_release p ks) ≡ true)
        × (s'.access_manager.access_granted.sent ≡ [])
        × (s'.world ≡ w)
  handle_request-lost token text w parsed answered =
      let s2 : Server platform = record released { world = w } in
      ground (
        arith,
        handle_request-message platform token text (registry_request k p RequestType.release) s
            parsed,
        released-answer,
        waiting-holds,
        answered,
        after_response-lost platform text s2 q k ks.creator _ released-sent gone,
        release-Effect order p k ks s.access_manager (sound.locks k ks found) held sound.connected
            found,
      )
