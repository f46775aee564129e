-- ===== src/Agent/Authz/Exclusive.antt =====
-- A grant is in use on one connection at most (crates/rds-agent/src/authz.rs).
use remote_device_sync.Base.{
  ℕ, ◌+◌, ◌≤◌, ◌≡◌, refl, ◌⊎◌, inl, inr, Bool, true, false, ◌&&◌, ◌||◌, not, Option, none, some,
  ◌==◌, if◌then◌else◌, contains, is_some, b2n, Result, ok, err, Option-cases, Result-cases, arith,
}
use remote_device_sync.Base.Map.{
  Map, lookup, IsSorted, insert-IsSorted, remove-IsSorted, lookup-insert, lookup-remove,
}
use remote_device_sync.Grant.{VerifiedGrant}
use remote_device_sync.Discovery.Clock.{Reading}
use remote_device_sync.Agent.Revocations.{RevocationPolicy, fresh, revocations_permit}
use remote_device_sync.Agent.Authz.{
  AuthzError, read_and_reserve, ActiveGrant, GrantLease, State, open_state, pending, closed,
  authorizing, granted, renewing, Shared, new_active, live, held, drop, closing, begin, reserve,
  is_installable, install, commit, begin_renewal, commit_renewal,
}

-- Whether a state owns the reservation of a grant.
abbrev pub owns : ℕ → Option GrantLease → ℕ
owns g none = 0
owns g (some l) = b2n (l.slot == g)

abbrev pub reserved : ℕ → Map (Unit {0}) → ℕ
reserved g active = b2n (is_some (lookup g active))

-- What a state owns is reserved, no more than once; what an operation gives up or takes is what the
-- set of grants in use loses or gains.
pub record Balances (s t : Shared) : Type 0 where
  pub sorted : IsSorted t.active
  pub balance :
      (g : ℕ)
      → reserved g t.active + owns g (held s.state) ≡ reserved g s.active + owns g (held t.state)

-- Every lease of the state is in the set.
pub record IsReserved (s : Shared) : Type 0 where
  pub sorted : IsSorted s.active
  pub within : (g : ℕ) → owns g (held s.state) ≤ reserved g s.active

pub same-Balances :
    (s t : Shared) → IsReserved s → s.active ≡ t.active → held s.state ≡ held t.state → Balances s t
same-Balances s t v a h = record { sorted = rw (← a) v.sorted; balance = λ g. rw (a, h) refl }

drop-balance :
    (l : Option GrantLease) (active : Map (Unit {0})) (g : ℕ)
    → IsSorted active
    → owns g l ≤ reserved g active
    → reserved g (drop l active) + owns g l ≡ reserved g active
drop-balance none active g s h = omega arith
drop-balance (some l) active g s h = ground (arith, lookup-remove g l.slot active s)

pub closing-Balances : (s : Shared) → IsReserved s → Balances s (closing s)
closing-Balances s v = record {
  sorted = drop-IsSorted (held s.state);
  balance = λ g. omega (arith, drop-balance (held s.state) s.active g v.sorted (v.within g));
}
  where
    drop-IsSorted : (l : Option GrantLease) → IsSorted (drop l s.active)
    drop-IsSorted none = v.sorted
    drop-IsSorted (some l) = remove-IsSorted l.slot s.active v.sorted

-- An operation on a state, with whatever it reads and is given.
pub data Operation : Type 0 where
  begin_op begin_renewal_op close_op : Operation
  install_op :
      ℕ → Bool → RevocationPolicy → Option Reading → Option Reading → VerifiedGrant → Operation
  commit_op : Bool → RevocationPolicy → Option Reading → Option Reading → Operation
  commit_renewal_op :
      ActiveGrant
      → Bool
      → Bool
      → RevocationPolicy
      → Option Reading
      → Option Reading
      → Option Reading
      → Operation

unfoldable pub operate : Operation → Shared → Shared
operate begin_op s = record s { state = (begin s.state).0 }
operate begin_renewal_op s = record s { state = (begin_renewal s.state).0 }
operate close_op s = closing s
operate (install_op a c p r q g) s = (install a c p r q g s).0
operate (commit_op c p r q) s = (commit c p r q s).0
operate (commit_renewal_op n c d p r q x) s = (commit_renewal n c d p r q x s).0

abbrev Outcome : Type 0
Outcome = Shared × Result AuthzError (Unit {0})

either-Balances :
    (b : Bool) (s : Shared) (x y : Outcome)
    → (b ≡ true → Balances s x.0)
    → (b ≡ false → Balances s y.0)
    → Balances s (if◌then◌else◌ {A = Outcome} b x y).0
either-Balances true s x y f g = f refl
either-Balances false s x y f g = g refl

module _ (active : Map (Unit {0})) where
  abbrev at : State → Shared
  at st = record { active = active; state = st }

  begin-Balances : (st : State) → IsReserved (at st) → Balances (at st) (at (begin st).0)
  begin-Balances pending v = same-Balances _ _ v refl refl
  begin-Balances open_state v = same-Balances _ _ v refl refl
  begin-Balances closed v = same-Balances _ _ v refl refl
  begin-Balances (authorizing l) v = same-Balances _ _ v refl refl
  begin-Balances (granted l) v = same-Balances _ _ v refl refl
  begin-Balances (renewing l) v = same-Balances _ _ v refl refl

  begin_renewal-Balances :
      (st : State) → IsReserved (at st) → Balances (at st) (at (begin_renewal st).0)
  unfolding begin_renewal
  begin_renewal-Balances (granted l) v = same-Balances _ _ v refl refl
  begin_renewal-Balances pending v = same-Balances _ _ v refl refl
  begin_renewal-Balances open_state v = same-Balances _ _ v refl refl
  begin_renewal-Balances closed v = same-Balances _ _ v refl refl
  begin_renewal-Balances (authorizing l) v = same-Balances _ _ v refl refl
  begin_renewal-Balances (renewing l) v = same-Balances _ _ v refl refl

  commit-Balances :
      (c : Bool) (p : RevocationPolicy) (r q : Option Reading) (st : State)
      → IsReserved (at st)
      → Balances (at st) (commit c p r q (at st)).0
  unfolding commit
  commit-Balances c p r q (authorizing (some l)) v =
      either-Balances (not c && live r l.current && revocations_permit q l.current.grant.id p) _ _ _
        (λ e. same-Balances _ _ v refl refl) (λ e. closing-Balances _ v)
  commit-Balances c p r q (authorizing none) v = closing-Balances _ v
  commit-Balances c p r q pending v = closing-Balances _ v
  commit-Balances c p r q open_state v = closing-Balances _ v
  commit-Balances c p r q closed v = closing-Balances _ v
  commit-Balances c p r q (granted l) v = closing-Balances _ v
  commit-Balances c p r q (renewing l) v = closing-Balances _ v

  commit_renewal-Balances :
      (n : ActiveGrant) (c d : Bool) (p : RevocationPolicy) (r q x : Option Reading) (st : State)
      → IsReserved (at st)
      → Balances (at st) (commit_renewal n c d p r q x (at st)).0
  unfolding commit_renewal
  commit_renewal-Balances n c d p r q x (renewing l) v =
      either-Balances
        (not c && live r l.current && live q n && revocations_permit x n.grant.id p && not d) _ _ _
        (λ e. record { sorted = v.sorted; balance = λ g. refl }) (λ e. closing-Balances _ v)
  commit_renewal-Balances n c d p r q x pending v = closing-Balances _ v
  commit_renewal-Balances n c d p r q x open_state v = closing-Balances _ v
  commit_renewal-Balances n c d p r q x closed v = closing-Balances _ v
  commit_renewal-Balances n c d p r q x (granted l) v = closing-Balances _ v
  commit_renewal-Balances n c d p r q x (authorizing l) v = closing-Balances _ v

reserve-Balances :
    (g : VerifiedGrant) (now : Reading) (s : Shared)
    → held s.state ≡ none
    → IsReserved s
    → Balances s (reserve g now s).0
unfolding reserve
reserve-Balances g now s h v =
    go (Option-cases (lookup g.id s.active)) (Result-cases (new_active g now))
  where
    go :
        ((lookup g.id s.active ≡ none) ⊎ ((u : Unit {0}) × (lookup g.id s.active ≡ some u)))
        → ((a : ActiveGrant) × (new_active g now ≡ ok a))
          ⊎ ((e : AuthzError) × (new_active g now ≡ err e))
        → Balances s (reserve g now s).0
    go (inr (u, e)) _ = rw (e, reserve) (same-Balances s s v refl refl)
    go (inl e) (inr (x, f)) = rw (e, reserve, f) (same-Balances s s v refl refl)
    go (inl e) (inl (a, f)) =
        rw (e, reserve, f)
          (record {
            sorted = insert-IsSorted g.id tt s.active v.sorted;
            balance = λ k. rw (h) (ground (arith, lookup-insert k g.id tt s.active, e));
          })

read_and_reserve-Balances :
    (q : Option Reading) (g : VerifiedGrant) (s : Shared)
    → IsReserved s
    → held s.state ≡ none
    → Balances s (read_and_reserve q g s).0
unfolding read_and_reserve
read_and_reserve-Balances none g s v h = same-Balances s s v refl refl
read_and_reserve-Balances (some now) g s v h = reserve-Balances g now s h v

install-Balances :
    (a : ℕ) (c : Bool) (p : RevocationPolicy) (r q : Option Reading) (g : VerifiedGrant)
    (s : Shared)
    → IsReserved s
    → Balances s (install a c p r q g s).0
unfolding install
install-Balances a c p r q g s v =
    either-Balances (not (is_installable s.state) || c) s _ _ (λ e. same)
      (λ ready.
        either-Balances (not (fresh r p)) s _ _ (λ e. same)
          (λ e.
            either-Balances (contains g.id p.ids) s _ _ (λ e. same)
              (λ e.
                either-Balances (not (g.payload.audience == a)) s _ _ (λ e. same)
                  (λ e.
                    read_and_reserve-Balances q g s v
                      (installable s.state (ground (arith, ready)))))))
  where
    same : Balances s s
    same = same-Balances s s v refl refl

    installable : (st : State) → is_installable st ≡ true → held st ≡ none
    installable (authorizing none) h = refl
    installable (authorizing (some l)) h = cc
    installable open_state h = refl
    installable pending h = refl
    installable closed h = refl
    installable (granted l) h = cc
    installable (renewing l) h = cc

pub operate-Balances : (o : Operation) (s : Shared) → IsReserved s → Balances s (operate o s)
unfolding operate
operate-Balances begin_op s v = begin-Balances s.active s.state v
operate-Balances begin_renewal_op s v = begin_renewal-Balances s.active s.state v
operate-Balances close_op s v = closing-Balances s v
operate-Balances (install_op a c p r q g) s v = install-Balances a c p r q g s v
operate-Balances (commit_op c p r q) s v = commit-Balances s.active c p r q s.state v
operate-Balances (commit_renewal_op n c d p r q x) s v =
    commit_renewal-Balances s.active n c d p r q x s.state v
