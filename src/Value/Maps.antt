-- ===== src/Value/Maps.antt =====
-- Go maps with string keys: reading, writing and copying without a key.
use synap_sdk_go.Prelude.{◌≡◌, refl, Option, none, some, arith, if◌then◌else◌}
use synap_sdk_go.Bytes.{Bytes, bytes_eq, bytes_eq_iff, bytes_eq_refl}
use package.synap_sdk_go.Value.{Value, Entries, no_entries, entry}

-- v, ok := m[k]
unfoldable pub lookup : Bytes → Entries → Option Value
unfolding bytes_eq
lookup k no_entries = none
lookup k (entry j v m) = if bytes_eq j k then some v else lookup k m

-- m[k] = v
unfoldable pub insert : Bytes → Value → Entries → Entries
unfolding bytes_eq
insert k v no_entries = entry k v no_entries
insert k v (entry j w m) = if bytes_eq j k then entry k v m else entry j w (insert k v m)

-- A copy of the map without the key k.
unfoldable pub without : Bytes → Entries → Entries
unfolding bytes_eq
without k no_entries = no_entries
without k (entry j v m) = let rest = without k m in if bytes_eq j k then rest else entry j v rest

pub lookup-insert :
    (k j : Bytes) (v : Value) (m : Entries)
    → lookup j (insert k v m) ≡ (if bytes_eq k j then some v else lookup j m)
unfolding lookup insert
lookup-insert k j v no_entries = refl
lookup-insert k j v (entry i w m) =
    ground (arith, bytes_eq_iff k j, bytes_eq_iff i k, bytes_eq_iff i j, lookup-insert k j v m)

pub lookup-without :
    (k j : Bytes) (m : Entries)
    → lookup j (without k m) ≡ (if bytes_eq k j then none else lookup j m)
unfolding lookup without
lookup-without k j no_entries = ground arith
lookup-without k j (entry i w m) =
    ground (arith, bytes_eq_iff k j, bytes_eq_iff i k, bytes_eq_iff i j, lookup-without k j m)

pub lookup-without_self : (k : Bytes) (m : Entries) → lookup k (without k m) ≡ none
lookup-without_self k m = rw (lookup-without k k m, bytes_eq_refl k)

pub lookup-insert_self : (k : Bytes) (v : Value) (m : Entries) → lookup k (insert k v m) ≡ some v
lookup-insert_self k v m = rw (lookup-insert k k v m, bytes_eq_refl k)
