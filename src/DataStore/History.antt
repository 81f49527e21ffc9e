-- ===== src/DataStore/History.antt =====
-- What the store holds, by the history of its operations.
use soros.Base.{
  ◌≡◌, refl, String, List, [], ◌∷◌, Option, none, some, Outcome, ok, err, ◌==◌, if◌then◌else◌,
  arith,
}
use soros.Protocol.{KeyId}
use soros.DataStore
use soros.DataStore.{DataStore, DataStoreError, key_does_not_exist, new}

pub data Operation : Type 0 where
  create write : KeyId → String → Operation
  delete : KeyId → Operation

unfoldable pub apply : Operation → DataStore → DataStore
apply (create k t) d = (DataStore.create k t d).1
apply (write k t) d = (DataStore.write k t d).1
apply (delete k) d = (DataStore.delete k d).1

-- The store after some operations, the newest first.
unfoldable pub after : List Operation → DataStore
after [] = new
after (op ∷ earlier) = apply op (after earlier)

-- The text that the history leaves at `k`: that of the last creation or write, unless a deletion
-- came after it; a write counts only where there is a text to replace.
unfoldable pub latest : KeyId → List Operation → Option String
latest k [] = none
latest k (create j t ∷ earlier) = let old = latest k earlier in if j == k then some t else old
latest k (delete j ∷ earlier) = let old = latest k earlier in if j == k then none else old
latest k (write j t ∷ earlier) =
    let old = latest k earlier in if j == k then elim old [ none ↦ none | some u ↦ some t ] else old

abbrev pub found : KeyId → Option String → Outcome DataStoreError String
found k none = err (key_does_not_exist k)
found k (some t) = ok t

pub after-latest : (k : KeyId) (ops : List Operation) → (after ops).data_map k ≡ latest k ops
unfolding after latest apply DataStore.create DataStore.write DataStore.delete
after-latest k [] = refl
after-latest k (create j t ∷ ops) = ground (arith, after-latest k ops)
after-latest k (delete j ∷ ops) = ground (arith, after-latest k ops)
after-latest k (write j t ∷ ops) = ground (arith, after-latest k ops, after-latest j ops)

-- After any operations on a new store, `get` finds the text that the history left at the key, fails
-- with `KeyDoesNotExists` where it left none, and leaves the store as it is.
pub get-after :
    (k : KeyId) (ops : List Operation)
    → DataStore.get k (after ops) ≡ (found k (latest k ops), after ops)
unfolding DataStore.get
get-after k ops = ground (arith, after-latest k ops)
