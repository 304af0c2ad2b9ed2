-- ===== src/Identity/Store.antt =====
-- sentinel/identity/resolver.py: the protocol `IdentityStore`, the resolver over any store, and the
-- in-memory store as one of them.
use osl_agent_sentinel.Prelude.{
  String, ◌≡◌, refl, arith, Bool, true, false, ◌||◌, Option, none, some, List, [], ◌∷◌, ◌==◌,
  eq_iff, string_eq, Option-cases, inl, inr, if◌then◌else◌, Outcome, ok, err, Error,
}
use osl_agent_sentinel.Prelude.Dict.{lookup, lookup-insert}
use osl_agent_sentinel.Models.Identity.{Identity}
use osl_agent_sentinel.Identity.Resolver.{Store, get, put, revoke, usable, resolve}

abbrev pub withdraw : Identity → Identity
withdraw i = record i { revoked = true }

abbrev pub withdraw_found : Option Identity → Option Identity
withdraw_found none = none
withdraw_found (some i) = some (withdraw i)

-- The operations of the protocol on the states `S` of a store.
pub record IdentityStore (S : Type 0) : Type 0 where
  pub empty : S
  pub get : S → String → Option Identity
  pub put : S → Identity → S
  pub revoke : S → String → S

-- What a resolver may rely on.
pub record IsStore {S : Type 0} (store : IdentityStore S) : Type 0 where
  pub get-empty : (did : String) → store.get store.empty did ≡ none
  pub get-put :
      (s : S) (i : Identity) (did : String)
      → store.get (store.put s i) did ≡ (if i.did == did then some i else store.get s did)
  pub get-revoke :
      (s : S) (did other : String)
      → store.get (store.revoke s did) other
        ≡ (if did == other then withdraw_found (store.get s other) else store.get s other)

pub data Change : Type 0 where
  upserted : Identity → Change
  withdrawn : String → Change

-- What a history of changes, the last one first, says of a DID: the last record put under it, and
-- whether it was revoked since.
abbrev pub last_upsert : List Change → String → Option Identity
last_upsert [] did = none
last_upsert (upserted i ∷ past) did = if i.did == did then some i else last_upsert past did
last_upsert (withdrawn _ ∷ past) did = last_upsert past did

abbrev pub revoked_since : List Change → String → Bool
revoked_since [] did = false
revoked_since (upserted i ∷ past) did = if i.did == did then false else revoked_since past did
revoked_since (withdrawn d ∷ past) did = d == did || revoked_since past did

abbrev pub resolved_by : Option Identity → Bool → Outcome Identity
resolved_by none withdrawn_since = err Error.identity_error
resolved_by (some i) true = err Error.identity_error
resolved_by (some i) false = if i.revoked then err Error.identity_error else ok i

abbrev marked : Option Identity → Bool → Option Identity
marked o b = if b then withdraw_found o else o

usable-marked : (o : Option Identity) (b : Bool) → usable (marked o b) ≡ resolved_by o b
usable-marked o b = ground arith

module _ {S : Type 0} (store : IdentityStore S) where
  -- `resolve`, of a resolver over the store
  abbrev pub resolve_in : S → String → Outcome Identity
  resolve_in s did = usable (store.get s did)

  abbrev pub after : List Change → S
  after [] = store.empty
  after (upserted i ∷ past) = store.put (after past) i
  after (withdrawn did ∷ past) = store.revoke (after past) did

  get-after :
      IsStore store
      → (past : List Change) (did : String)
      → store.get (after past) did ≡ marked (last_upsert past did) (revoked_since past did)
  get-after law [] did = law.get-empty did
  get-after law (upserted i ∷ past) did =
      ground (arith, law.get-put (after past) i did, get-after law past did)
  get-after law (withdrawn d ∷ past) did =
      ground (arith, law.get-revoke (after past) d did, get-after law past did)

  -- The resolver over any such store.
  resolve_in-after :
      IsStore store
      → (past : List Change) (did : String)
      → resolve_in (after past) did ≡ resolved_by (last_upsert past did) (revoked_since past did)
  resolve_in-after law past did =
      rw (get-after law past did) (usable-marked (last_upsert past did) (revoked_since past did))

get-revoke_lem :
    (s : Store) (did other : String)
    → get (revoke s did) other
      ≡ (if did == other then withdraw_found (get s other) else get s other)
unfolding get revoke
get-revoke_lem s did other = elim (Option-cases (lookup did s)) [
  | inl missing ↦ ground (arith, eq_iff did other)
  | inr (i, found) ↦ ground (arith, lookup-insert did other (withdraw i) s, eq_iff did other)
]

get-put_lem :
    (s : Store) (i : Identity) (did : String)
    → get (put s i) did ≡ (if i.did == did then some i else get s did)
unfolding get put
get-put_lem s i did = lookup-insert i.did did i s

get-nil : (did : String) → get [] did ≡ none
unfolding get lookup
get-nil did = refl

abbrev pub in_memory : IdentityStore Store
in_memory = record { empty = []; get = get; put = put; revoke = revoke }

in_memory-IsStore : IsStore in_memory
in_memory-IsStore = record {
  get-empty = get-nil;
  get-put = get-put_lem;
  get-revoke = get-revoke_lem;
}

-- The resolver over the in-memory store implements the history: after any sequence of upserts and
-- revocations a DID resolves to the last record put under it, unless there is none, it was revoked
-- since, or the record says that it is revoked.
pub resolve-Refines :
    (past : List Change) (did : String)
    → resolve (after in_memory past) did
      ≡ resolved_by (last_upsert past did) (revoked_since past did)
unfolding resolve
resolve-Refines past did = resolve_in-after in_memory in_memory-IsStore past did
