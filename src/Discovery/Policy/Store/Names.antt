-- ===== src/Discovery/Policy/Store/Names.antt =====
-- The names that the policy store (crates/rds-discovery/src/policy.rs) holds: what `accept_name`
-- commits passes the check of a state that is read back.
use remote_device_sync.Base.{
  ℕ, ◌≡◌, refl, true, leb, List, [], ◌∷◌, length, Option, none, some, ◌⊎◌, inl, inr, ok, >>=-eq-ok,
  arith,
}
use remote_device_sync.Base.ByteMap.{get, put, all_keys, get-put, length-put, all_keys-put}
use remote_device_sync.Discovery.Authority.{newer_than}
use remote_device_sync.Discovery.Clock.{Reading, Lease, new}
use remote_device_sync.Discovery.Clock.Laws.{new-valid_at}
use remote_device_sync.Discovery.Registry.{
  SignedNameBinding, NameBindingPayload, stamp_eq, valid_name, verify_committed,
}
use remote_device_sync.Discovery.Policy.{
  Decoders, Names, State, check_stamp, validate_names, add_name, join_names, next_names, matches,
}

module _ (dec : Decoders) where
  -- A proof of a name that may be held in a state.
  pub record IsProof (key : ℕ) (label : List ℕ) (snap : SignedNameBinding) (p : NameBindingPayload)
      (st : State) : Type 0 where
    pub committed : verify_committed dec.crypto dec.binding snap key ≡ ok p
    pub name : p.name ≡ label
    pub valid : valid_name label ≡ true
    pub stamp : check_stamp st p.stamp ≡ ok tt

  holds :
      (key : ℕ) (label : List ℕ) (snap : SignedNameBinding) (p : NameBindingPayload) (st : State)
      (lease : Option Lease) (names : Names)
      → IsProof key label snap p st
      → matches lease p.issued_at p.expires_at ≡ true
      → get label names.hashes ≡ some (dec.crypto.hash snap.payload)
      → names.anchor ≡ snap
      → all_keys valid_name names.hashes ≡ true
      → leb (length names.hashes) 1024 ≡ true
      → validate_names dec (record st { names_lease = lease; names = some names }) key (some names)
        ≡ ok tt
  unfolding validate_names check_stamp
  holds key label snap p st lease names i m g a k l =
      rw a (rw i.committed (rw i.stamp (rw m (rw i.name (rw g (ground (arith, k, l)))))))

  -- What `accept_name` leaves: the same state with other names that pass the check, under a lease.
  pub record Named (key : ℕ) (st next : State) : Type 0 where
    pub lease : Option Lease
    pub names : Names
    pub next_eq : next ≡ record st { names_lease = lease; names = some names }
    pub valid :
        validate_names dec (record st { names_lease = lease; names = some names }) key (some names)
        ≡ ok tt

  add_name-Named :
      (key : ℕ) (label : List ℕ) (snap : SignedNameBinding) (p : NameBindingPayload) (names : Names)
      (st next : State) (lease : Option Lease)
      → IsProof key label snap p st
      → matches lease p.issued_at p.expires_at ≡ true
      → all_keys valid_name names.hashes ≡ true
      → add_name dec label snap names (record st { names_lease = lease }) ≡ ok (some next)
      → Named key st next
  unfolding add_name
  add_name-Named key label snap p names st next lease i m k h =
      let hash = dec.crypto.hash snap.payload in
      let added : Names = record { anchor = snap; hashes = put label hash names.hashes } in
      record {
        lease = lease;
        names = added;
        next_eq = ground arith;
        valid =
            holds key label snap p st lease added i m (get-put label hash names.hashes) refl
              (all_keys-put valid_name label hash names.hashes i.valid k)
              (ground (arith, length-put label hash names.hashes));
      }

  names_lem :
      (key : ℕ) (st : State) (names : Names) (old : NameBindingPayload)
      → validate_names dec st key (some names) ≡ ok tt
      → verify_committed dec.crypto dec.binding names.anchor key ≡ ok old
      → (matches st.names_lease old.issued_at old.expires_at ≡ true)
        × (all_keys valid_name names.hashes ≡ true)
  unfolding validate_names
  names_lem key st names old v e = ground arith

  pub join_names_lem :
      (label : List ℕ) (snap : SignedNameBinding) (p old : NameBindingPayload) (names : Names)
      (now : Reading) (st next : State)
      → join_names dec label snap p old names now st ≡ ok (some next)
      → (old.issued_at ≡ p.issued_at)
        × (old.expires_at ≡ p.expires_at)
        × (add_name dec label snap names st ≡ ok (some next))
  unfolding join_names
  join_names_lem label snap p old names now st next h = ground arith

  -- A name beside the ones that the store holds is of the same snapshot or of a newer one.
  pub next_names-cases :
      (key : ℕ) (label : List ℕ) (snap : SignedNameBinding) (p old : NameBindingPayload)
      (now : Reading) (st next : State) (names : Names)
      → next_names dec key label snap p now st (some names) ≡ ok (some next)
      → verify_committed dec.crypto dec.binding names.anchor key ≡ ok old
      → ((stamp_eq old.stamp p.stamp ≡ true)
          × (join_names dec label snap p old names now st ≡ ok (some next)))
        ⊎ ((newer_than p.stamp old.stamp ≡ ok tt)
            × ((lease : Lease) × (new p.issued_at p.expires_at now ≡ ok lease)
                × (add_name dec label snap
                      (record names { hashes = [] })
                      (record st { names_lease = some lease })
                    ≡ ok (some next))))
  unfolding next_names
  next_names-cases key label snap p old now st next names h e = ground arith

  pub next_names-Named :
      (key : ℕ) (label : List ℕ) (snap : SignedNameBinding) (p : NameBindingPayload) (now : Reading)
      (st next : State) (names : Option Names)
      → IsProof key label snap p st
      → validate_names dec st key names ≡ ok tt
      → next_names dec key label snap p now st names ≡ ok (some next)
      → Named key st next
  unfolding next_names put all_keys
  next_names-Named key label snap p now st next none i v h =
      let (lease, e, h') = >>=-eq-ok (new p.issued_at p.expires_at now) _ h in
      let (_, m, _) = new-valid_at p.issued_at p.expires_at now lease e in
      let hash = dec.crypto.hash snap.payload in
      let names : Names = record { anchor = snap; hashes = (label, hash) ∷ [] } in
      record {
        lease = some lease;
        names = names;
        next_eq = ground arith;
        valid =
            holds key label snap p st (some lease) names i m (get-put label hash []) refl
              (all_keys-put valid_name label hash [] i.valid refl) refl;
      }
  next_names-Named key label snap p now st next (some names) i v h =
      let (old, e, h') = >>=-eq-ok (verify_committed dec.crypto dec.binding names.anchor key) _ h in
      let (m, k) = names_lem key st names old v e in
      elim (next_names-cases key label snap p old now st next names h e) [
        | inl (same, joined) ↦
            let (issued, expires, added) =
              join_names_lem label snap p old names now st next joined in
            add_name-Named key label snap p names st next st.names_lease i
              (ground (arith, m, issued, expires)) k added
        | inr (newer, (lease, leased, added)) ↦
            let (_, matched, _) = new-valid_at p.issued_at p.expires_at now lease leased in
            add_name-Named key label snap p (record names { hashes = [] }) st next (some lease) i
              matched refl added
      ]
