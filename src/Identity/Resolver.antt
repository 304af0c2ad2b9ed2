-- ===== src/Identity/Resolver.antt =====
-- sentinel/identity/resolver.py, over the in-memory store.
use osl_agent_sentinel.Prelude.{
  String, ◌≡◌, arith, true, false, Option, none, some, List, [], ◌∷◌, ◌==◌, eq_iff, string_eq,
  Option-cases, inl, inr, if◌then◌else◌, Outcome, ok, err, Error,
}
use osl_agent_sentinel.Prelude.Dict.{Dict, lookup, insert, lookup-insert}
use osl_agent_sentinel.Models.Identity.{Identity}

-- `InMemoryIdentityStore._items`
abbrev pub Store : Type 0
Store = Dict Identity

unfoldable pub get : Store → String → Option Identity
get store did = lookup did store

unfoldable pub put : Store → Identity → Store
put store identity = insert identity.did identity store

add_all : Store → List Identity → Store
add_all store [] = store
add_all store (i ∷ rest) = add_all (insert i.did i store) rest

-- `InMemoryIdentityStore(seed)`
unfoldable pub new_store : List Identity → Store
unfolding add_all
new_store seed = add_all [] seed

unfoldable pub revoke : Store → String → Store
revoke store did = elim (lookup did store) [
  | none ↦ store
  | some i ↦ insert did (record i { revoked = true }) store
]

abbrev pub usable : Option Identity → Outcome Identity
usable none = err Error.identity_error
usable (some i) = if i.revoked then err Error.identity_error else ok i

unfoldable pub resolve : Store → String → Outcome Identity
unfolding get
resolve store did = usable (get store did)

-- What the resolver hands out was put there under that DID, and is not revoked.
pub resolve-ok :
    (store : Store) (did : String) (i : Identity)
    → resolve store did ≡ ok i
    → (get store did ≡ some i) × (i.revoked ≡ false)
unfolding resolve
resolve-ok store did i h = ground arith

-- After an upsert the DID resolves to the new record unless that is revoked, and every other DID
-- resolves as before.
pub resolve-put :
    (store : Store) (i : Identity) (did : String)
    → resolve (put store i) did ≡ (if i.did == did then usable (some i) else resolve store did)
unfolding resolve put
resolve-put store i did = ground (arith, lookup-insert i.did did i store, eq_iff i.did did)

-- A revoked DID never resolves again, and no other DID is touched.
pub resolve-revoke :
    (store : Store) (did other : String)
    → resolve (revoke store did) other
      ≡ (if did == other then err Error.identity_error else resolve store other)
unfolding resolve revoke
resolve-revoke store did other = elim (Option-cases (lookup did store)) [
  | inl missing ↦ ground (arith, eq_iff did other)
  | inr (i, found) ↦
      ground (arith, lookup-insert did other (record i { revoked = true }) store, eq_iff did other)
]
