-- ===== src/Agent/Authz/System.antt =====
-- All the connections of an agent and their operations, in any order (crates/rds-agent/src/authz.rs).
use remote_device_sync.Base.{
  ℕ, suc, ◌+◌, ◌≤◌, ◌≡◌, refl, ◌⊎◌, inl, inr, Bool, true, false, none, some, if◌then◌else◌, List,
  [], ◌∷◌, is_some, b2n, Option-cases, arith,
}
use remote_device_sync.Base.Map.{
  Map, lookup, insert, IsSorted, insert-IsSorted, lookup-From, From-mono,
}
use remote_device_sync.Agent.Authz.{State, open_state, pending, held}
use remote_device_sync.Agent.Authz.Exclusive.{owns, reserved, Operation, operate, operate-Balances}

pub record System : Type 0 where
  pub active : Map (Unit {0})
  pub connections : Map State

-- A connection that is accepted, under a new number, or an operation of one.
pub data Step : Type 0 where
  connect : ℕ → Bool → Step
  act : ℕ → Operation → Step

-- `ConnAuthz::new` for a connection with a new number.
unfoldable pub accept : ℕ → Bool → System → System
accept k required s = if is_some (lookup k s.connections) then s else record s {
  connections = insert k (if required then pending else open_state) s.connections;
}

unfoldable pub perform : ℕ → Operation → System → System
perform k o s = elim (lookup k s.connections) [
  | none ↦ s
  | some st ↦
      let t = operate o (record { active = s.active; state = st }) in
      record { active = t.active; connections = insert k t.state s.connections }
]

unfoldable pub run : List Step → System → System
run [] s = s
run (connect k required ∷ xs) s = run xs (accept k required s)
run (act k o ∷ xs) s = run xs (perform k o s)

abbrev pub empty : System
empty = record { active = []; connections = [] }

-- How many connections own the reservation of a grant.
abbrev pub owners : ℕ → Map State → ℕ
owners g [] = 0
owners g ((k, st) ∷ m) = owns g (held st) + owners g m

-- A grant is in the set of grants in use exactly when one connection owns it, and no two own it.
pub record IsExclusive (s : System) : Type 0 where
  pub active_sorted : IsSorted s.active
  pub sorted : IsSorted s.connections
  pub owned : (g : ℕ) → owners g s.connections ≡ reserved g s.active

owners-insert_new :
    (g k : ℕ) (st : State) (m : Map State)
    → lookup k m ≡ none
    → owners g (insert k st m) ≡ owns g (held st) + owners g m
unfolding lookup insert
owners-insert_new g k st [] e = refl
owners-insert_new g k st ((j, w) ∷ m) e = ground (arith, owners-insert_new g k st m)

owners-insert :
    (g k : ℕ) (st old : State) (m : Map State)
    → IsSorted m
    → lookup k m ≡ some old
    → owners g (insert k st m) + owns g (held old) ≡ owners g m + owns g (held st)
unfolding lookup insert
owners-insert g k st old [] s e = absurd (cc)
owners-insert g k st old ((j, w) ∷ m) s e =
    ground (arith, owners-insert g k st old m s.1, lookup-From k m, From-mono (suc k) (suc j) m)

owns-le :
    (g k : ℕ) (old : State) (m : Map State) → lookup k m ≡ some old → owns g (held old) ≤ owners g m
unfolding lookup
owns-le g k old [] e = absurd (cc)
owns-le g k old ((j, w) ∷ m) e = ground (arith, owns-le g k old m)

perform-IsExclusive :
    (k : ℕ) (o : Operation) (s : System) → IsExclusive s → IsExclusive (perform k o s)
unfolding perform
perform-IsExclusive k o s v = go (Option-cases (lookup k s.connections))
  where
    go :
        (lookup k s.connections ≡ none) ⊎ ((st : State) × (lookup k s.connections ≡ some st))
        → IsExclusive (perform k o s)
    go (inl e) = rw (e, perform) v
    go (inr (st, e)) =
        let b =
          operate-Balances o (record { active = s.active; state = st })
            (record {
              sorted = v.active_sorted;
              within = λ g. omega (arith, owns-le g k st s.connections e, v.owned g);
            }) in
        rw (e, perform)
          (record {
            active_sorted = b.sorted;
            sorted = insert-IsSorted k _ s.connections v.sorted;
            owned = λ g.
                omega
                  (arith, b.balance g, v.owned g, owners-insert g k _ st s.connections v.sorted e);
          })

accept-IsExclusive : (k : ℕ) (r : Bool) (s : System) → IsExclusive s → IsExclusive (accept k r s)
unfolding accept
accept-IsExclusive k r s v = go (Option-cases (lookup k s.connections))
  where
    fresh : (r : Bool) (g : ℕ) → owns g (held (if r then pending else open_state)) ≡ 0
    fresh true g = refl
    fresh false g = refl

    go :
        (lookup k s.connections ≡ none) ⊎ ((st : State) × (lookup k s.connections ≡ some st))
        → IsExclusive (accept k r s)
    go (inr (st, e)) = rw (e, accept) v
    go (inl e) =
        rw (e, accept)
          (record {
            active_sorted = v.active_sorted;
            sorted = insert-IsSorted k _ s.connections v.sorted;
            owned = λ g. omega (
              arith,
              v.owned g,
              owners-insert_new g k (if r then pending else open_state) s.connections e,
              fresh r g,
            );
          })

from-IsExclusive : (xs : List Step) (s : System) → IsExclusive s → IsExclusive (run xs s)
unfolding run
from-IsExclusive [] s v = v
from-IsExclusive (connect k r ∷ xs) s v =
    from-IsExclusive xs (accept k r s) (accept-IsExclusive k r s v)
from-IsExclusive (act k o ∷ xs) s v =
    from-IsExclusive xs (perform k o s) (perform-IsExclusive k o s v)

-- However the authorizations, renewals and closings of an agent's connections interleave, and
-- whatever clocks, policies and grants they meet, every grant is owned by at most one connection, and
-- it is in the shared set of grants in use exactly while one owns it.
pub run-IsExclusive :
    (xs : List Step) (g : ℕ)
    → (owners g (run xs empty).connections ≡ reserved g (run xs empty).active)
      × (owners g (run xs empty).connections ≤ 1)
run-IsExclusive xs g =
    let v =
      from-IsExclusive xs empty
        (record { active_sorted = tt; sorted = tt; owned = λ g. unfold lookup in refl }) in
    (v.owned g, omega (arith, v.owned g, at_most (is_some (lookup g (run xs empty).active))))
  where
    at_most : (b : Bool) → b2n b ≤ 1
    at_most true = omega arith
    at_most false = omega arith
