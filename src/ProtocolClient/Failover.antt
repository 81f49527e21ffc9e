-- ===== src/ProtocolClient/Failover.antt =====
-- What a client does when its registry does not respond, and what it keeps of itself then.
use soros.Base.{ℕ, ◌≡◌, refl, Bool, inl, inr, arith, >>=-preserves, ◌⊎◌}
use soros.Protocol.{ProcId, KeyId, Bytes, Serde, RequestType, registry_request, to_vec}
use soros.Network.{Network}
use soros.ProtocolClient.{
  Client, fails, switch_to_secondary, send, send_to_secondary, registry_send_request,
}

sum-cases : {A B : Type 0} (x : A ⊎ B) → ((a : A) × (x ≡ inl a)) ⊎ ((b : B) × (x ≡ inr b))
sum-cases (inl a) = inl (a, refl)
sum-cases (inr b) = inr (b, refl)

module _ (network : Network) (serde : Serde) where
  -- The client has the id and the flag that it had.
  abbrev pub IsIdentity : ProcId → Bool → Client network serde → Type 0
  IsIdentity p b s = (s.proc_id ≡ p) × (s.is_primary ≡ b)

  send-IsIdentity :
      (p : ProcId) (b : Bool) (text : Bytes) (s : Client network serde)
      → IsIdentity p b s
      → IsIdentity p b (send network serde text s).1
  send-IsIdentity p b text s h = ground arith

  switch_to_secondary-IsIdentity :
      (p : ProcId) (b : Bool) (fuel : ℕ) (s : Client network serde)
      → IsIdentity p b s
      → IsIdentity p b (switch_to_secondary network serde fuel s).1
  unfolding switch_to_secondary
  switch_to_secondary-IsIdentity p b fuel s h = ground arith

  send_to_secondary-IsIdentity :
      (p : ProcId) (b : Bool) (fuel : ℕ) (text : Bytes) (s : Client network serde)
      → IsIdentity p b s
      → IsIdentity p b (send_to_secondary network serde fuel text s).1
  unfolding send_to_secondary
  send_to_secondary-IsIdentity p b fuel text s h = ground (
    arith,
    >>=-preserves (IsIdentity p b) (switch_to_secondary network serde fuel)
        (λ _. send network serde text) (switch_to_secondary-IsIdentity p b fuel)
        (λ _. send-IsIdentity p b text) s h,
  )

  -- Whatever the two registries and the network do, a request leaves the client with the process id
  -- that it had, and with its note of whether the primary is its registry, also if the request went to
  -- the secondary.
  pub registry_send_request-IsIdentity :
      (p : ProcId) (b : Bool) (fuel : ℕ) (k : KeyId) (t : RequestType) (s : Client network serde)
      → IsIdentity p b s
      → IsIdentity p b (registry_send_request network serde fuel k t s).1
  unfolding registry_send_request
  registry_send_request-IsIdentity p b fuel k t s h =
      elim (sum-cases (to_vec serde (registry_request k s.proc_id t))) [
        | inl (d, e) ↦ rw e h
        | inr (text, e) ↦ ground (
          arith,
          e,
          send_to_secondary-IsIdentity p b fuel text (written text),
          send_to_secondary-IsIdentity p b fuel text
              (fails network serde network.peek (written text)).1,
        )
      ]
    where
      written : Bytes → Client network serde
      written text = (fails network serde (λ stream. network.write_all stream text) s).1
