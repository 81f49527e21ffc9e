-- ===== src/Session/WaitingTests.antt =====
-- Process 4 asks to write key 0, which process 1 writes, and process 1 releases it.
use soros.Base.{
  ℕ, ◌+◌, ◌≡◌, refl, [], ◌∷◌, none, some, ◌⊎◌, inl, inr, ok, arith, ◌==◌, if◌then◌else◌, List,
}
use soros.Base.HashMap
use soros.Protocol.{
  Bytes, SerdeError, Message, RegistryMessage, RegistryResponse, RequestType, newline,
  registry_request, registry_response, to_vec, from_slice,
}
use soros.AccessManager
use soros.AccessManager.{AccessManager}
use soros.AccessManager.Calls.{Call, run, perform}
use soros.AccessManager.Invariant.{run-new-IsSound}
use soros.AccessManager.Orders.{insertion_order}
use soros.RegistryServer.{Platform, Server}
use soros.RegistryServer.Requests.{handle_data}
use soros.RegistryServer.Delivery.{Clients}
use soros.RegistryServer.Fixtures
use soros.RegistryServer.Fixtures.{Wires, wires, type_of_code}
use soros.ProtocolClient.{Client}
use soros.ProtocolClient.Fixtures as Answers
use soros.ProtocolClient.Requests.{registry_write_sync}
use soros.Session.Grant.{told_to_wait, granted_to, written_by}
use soros.Session.WaitingWrite.{registry_write_sync-granted}
use soros.Session.Lines.{line-Brings}

-- Three bytes or more are a request, two a response.
abbrev decode : Bytes → SerdeError ⊎ Message
decode (t ∷ p ∷ k ∷ rest) = inr (registry_request k p (type_of_code t))
decode (t ∷ k ∷ []) =
    inr (registry_response (if t == 2 then RegistryResponse.wait k else RegistryResponse.success k))
decode other = inl "EOF"

abbrev code_of : RequestType → ℕ
code_of RequestType.create = 0
code_of RequestType.delete = 1
code_of RequestType.read = 2
code_of RequestType.write = 3
code_of RequestType.release = 4

abbrev encode : Message → SerdeError ⊎ Bytes
encode (Message.registry (RegistryMessage.response (RegistryResponse.wait k))) = inr (2 ∷ k ∷ [])
encode (Message.registry (RegistryMessage.response (RegistryResponse.success k))) = inr (1 ∷ k ∷ [])
encode (Message.registry (RegistryMessage.request p t k)) = inr (code_of t ∷ p ∷ k ∷ [])
encode other = inr []

-- Each client's stream gives its one request.
abbrev platform : Platform
platform = record {
  network = record wires {
    read = λ stream n w.
        (inr (if stream == 11 then 4 ∷ 1 ∷ 0 ∷ newline ∷ [] else 3 ∷ 4 ∷ 0 ∷ newline ∷ []), w);
  };
  serde = record { serialize = encode; deserialize = decode };
  order = insertion_order;
  to_string = λ e. "error";
}

abbrev line_of : RegistryResponse → Bytes
line_of (RegistryResponse.wait k) = 2 ∷ k ∷ newline ∷ []
line_of (RegistryResponse.success k) = 1 ∷ k ∷ newline ∷ []
line_of other = newline ∷ []

line : (r : RegistryResponse) → to_vec platform.serde (registry_response r) ≡ inr (line_of r)
unfolding to_vec
line RegistryResponse.ack = refl
line (RegistryResponse.success k) = refl
line (RegistryResponse.wait k) = refl
line (RegistryResponse.holder k a) = refl
line (RegistryResponse.error e) = refl

abbrev clients : Clients platform
clients = record {
  stream_of = λ p. 10 + p;
  addr_of = λ h. record { ip = 1; port = 2 };
  line_of = line_of;
  to_vec-line_of = line;
  write_all-ok = λ stream text w. refl;
}

abbrev calls : List Call
calls = Call.create 3 0 ∷ Call.write 1 0 ∷ []

abbrev server : Server platform
server = record (Fixtures.server none (run insertion_order calls AccessManager.new)) {
  token_stream_map = HashMap.insert 4 14 (HashMap.insert 1 11 HashMap.empty);
  token_addr_map = HashMap.insert 3 (record { ip = 1; port = 2 }) HashMap.empty;
}

abbrev client : Client Answers.wires platform.serde
client = Answers.client ((2 ∷ 0 ∷ newline ∷ []) ∷ (1 ∷ 0 ∷ newline ∷ []) ∷ [])

registry_write_sync-granted_example :
    let s1 = told_to_wait platform clients 4 0 server.world server in
    let s2 = granted_to platform clients 1 4 3 0 s1.world s1 in
    (handle_data platform 4 server ≡ (ok tt, s1))
    × (handle_data platform 1 s1 ≡ (ok tt, s2))
    × (s2.access_manager.key_states 0 ≡ some (written_by 3 4 []))
    × (registry_write_sync Answers.wires platform.serde 1 0 client ≡ (ok tt, Answers.client []))
unfolding to_vec from_slice run perform AccessManager.create AccessManager.write
registry_write_sync-granted_example =
    let answers = (1 ∷ 0 ∷ newline ∷ []) ∷ [] in
    registry_write_sync-granted platform clients Answers.wires 1 3 0 3 4 (4 ∷ 0 ∷ newline ∷ [])
      (1 ∷ 0 ∷ newline ∷ []) (2 ∷ 0 ∷ []) (1 ∷ 0 ∷ []) [] server.world _ server client 1 _ _
      ([], answers) ([], []) (run-new-IsSound insertion_order calls) refl refl refl refl refl refl
      refl refl refl refl refl refl refl refl refl refl refl refl refl refl refl
      (line-Brings Answers.wires platform.serde 1 1 [] (2 ∷ 0 ∷ newline ∷ []) (2 ∷ 0 ∷ newline ∷ [])
        _ _ _ refl tt refl refl (omega arith) refl)
      (line-Brings Answers.wires platform.serde 1 1 [] (1 ∷ 0 ∷ newline ∷ []) (1 ∷ 0 ∷ newline ∷ [])
        _ _ _ refl tt refl refl (omega arith) refl)
