-- ===== src/DataStore/Tests.antt =====
-- The theorems of the data store at a concrete history.
use soros.Base.{◌≡◌, List, [], ◌∷◌, ok}
use soros.DataStore
use soros.DataStore.History.{Operation, create, write, delete, after, latest, get-after}

abbrev history : List Operation
history = write 1 "c" ∷ delete 2 ∷ write 1 "b" ∷ create 2 "x" ∷ create 1 "a" ∷ []

get-after_example : DataStore.get 1 (after history) ≡ (ok "c", after history)
unfolding latest
get-after_example = get-after 1 history
