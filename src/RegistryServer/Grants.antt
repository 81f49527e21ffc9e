-- ===== src/RegistryServer/Grants.antt =====
-- What the access manager leaves in its channel for the registry to send.
use soros.Base.{
  ℕ, List, [], ◌∷◌, none, some, arith, All, All-append, map, Option, subst, sym, NoPanic,
  Returned-NoPanic,
}
use soros.Protocol.{RequestType}
use soros.AccessManager.{AccessGranted, AccessManager, KeyState}
use soros.AccessManager.Lock.{Request, IsAccess, next_served, leading_readers, grants}
use soros.AccessManager.Release.{let_in}
use soros.AccessManager.Calls.{
  Call, create, read, write, release, delete, told, perform, key_of, answer,
}
use soros.Base.HashSet.{HashOrder}
use soros.AccessManager.Refinement.{IsSound, perform-Refines}
use soros.AccessManager.Invariant.{perform-IsSound, answer-Returned}

-- What the channel of the access manager may carry.
abbrev pub IsGrant : AccessGranted → Type 0
IsGrant (p, k, t, h) = IsAccess (p, t)

grants_of_reads-IsGrant :
    (k h : ℕ) (ps : List ℕ) → All IsGrant (grants k h (map (λ q. (q, RequestType.read)) ps))
grants_of_reads-IsGrant k h [] = tt
grants_of_reads-IsGrant k h (p ∷ ps) = (tt, grants_of_reads-IsGrant k h ps)

next_served-IsGrant :
    (k h : ℕ) (pending : List Request) → All IsGrant (grants k h (next_served pending))
unfolding next_served
next_served-IsGrant k h [] = tt
next_served-IsGrant k h ((p, RequestType.write) ∷ rest) = (tt, tt)
next_served-IsGrant k h ((p, RequestType.read) ∷ rest) =
    grants_of_reads-IsGrant k h (leading_readers ((p, RequestType.read) ∷ rest))
next_served-IsGrant k h ((p, RequestType.create) ∷ rest) = tt
next_served-IsGrant k h ((p, RequestType.delete) ∷ rest) = tt
next_served-IsGrant k h ((p, RequestType.release) ∷ rest) = tt

pub told-IsGrant : (c : Call) (o : Option KeyState) → All IsGrant (told c o)
unfolding told let_in
told-IsGrant (create p k) o = tt
told-IsGrant (read p k) o = tt
told-IsGrant (write p k) o = tt
told-IsGrant (delete k) o = tt
told-IsGrant (release p k) none = tt
told-IsGrant (release p k) (some ks) =
    ground (arith, next_served-IsGrant k ks.creator ks.pending_request)

-- The locks are well formed, and only reads and writes are waiting to be told of their access.
pub record IsSafe (m : AccessManager) : Type 0 where
  pub sound : IsSound m
  pub grants_only : All IsGrant m.access_granted.sent

module _ (order : HashOrder) (c : Call) (m : AccessManager) where
  pub perform-IsSafe : IsSafe m → IsSafe (perform order c m).1
  perform-IsSafe h = record {
    sound = perform-IsSound order c m h.sound;
    grants_only = subst (All IsGrant) (sym (perform-Refines order m c h.sound).1.sent) (
        All-append IsGrant m.access_granted.sent (told c (m.key_states (key_of c))) h.grants_only
          (told-IsGrant c (m.key_states (key_of c))));
  }

  pub perform-NoPanic : IsSafe m → NoPanic (perform order c m).0
  perform-NoPanic h = subst NoPanic (sym (perform-Refines order m c h.sound).0) (
      Returned-NoPanic (answer c (m.key_states (key_of c)))
        (answer-Returned c (m.key_states (key_of c))))
