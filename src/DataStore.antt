-- ===== src/DataStore.antt =====
-- p2p_server.rs: `DataStore`, the texts that a peer holds. Each operation runs under the mutex of the
-- map. No code panics while it holds a mutex, so none is ever poisoned, and `lock` never fails.
pub mod History
mod Tests
use soros.Base.{String, Option, none, some, Action, pure, modify, ok_or, ◌>>=◌, ◌>>◌}
use soros.Base.HashMap
use soros.Base.HashMap.{HashMap}
use soros.Protocol.{KeyId}
use soros.Network.{IoError}

pub data DataStoreError : Type 0 where
  io_error : IoError → DataStoreError
  key_already_exists : KeyId → DataStoreError
  key_does_not_exist : KeyId → DataStoreError

pub record DataStore : Type 0 where
  pub data_map : HashMap String

-- `DataStore::new`
abbrev pub new : DataStore
new = record { data_map = HashMap.empty }

abbrev pub D : Type 0 → Type 0
D = Action DataStore DataStoreError

unfoldable pub create : KeyId → String → D (Unit {0})
create key text = modify (λ d. record d { data_map = HashMap.insert key text d.data_map })

unfoldable pub write : KeyId → String → D (Unit {0})
write key new_data = do
  old ← (λ d. ok_or (d.data_map key) (key_does_not_exist key) d)
  modify (λ d. record d { data_map = HashMap.insert key new_data d.data_map })

unfoldable pub delete : KeyId → D (Unit {0})
delete key = modify (λ d. record d { data_map = HashMap.remove key d.data_map })

unfoldable pub get : KeyId → D String
get key d = ok_or (d.data_map key) (key_does_not_exist key) d
