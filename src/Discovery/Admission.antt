-- ===== src/Discovery/Admission.antt =====
-- crates/rds-discovery/src/admission.rs: publisher enrollment and the mutation budgets. Instants and
-- durations are nanoseconds; `saturating_duration_since` is the truncated `-`. The limiter's mutex
-- makes each call one step, and the clock's reading is an argument.
pub mod Budget
pub mod Bounds
pub mod Enroll
mod Trial
use remote_device_sync.Base.{
  ℕ, suc, ◌+◌, ◌-◌, ◌*◌, Bool, true, false, ◌||◌, ◌&&◌, not, List, [], ◌∷◌, Option, none, some, ltb,
  leb, ◌==◌, if◌then◌else◌, length, is_some, is_some_and, contains, Result, ok, err,
}
use remote_device_sync.Base.Map.{Map, lookup, insert, retain}
use remote_device_sync.Crypto.{Crypto}
use remote_device_sync.Discovery.{DiscoveryError, rate_limited, configuration}

abbrev pub max_identities : ℕ
max_identities = 4096

-- The fields of `service::Limits` that admission reads.
pub record Limits : Type 0 where
  pub put_min_interval : ℕ
  pub put_per_minute : ℕ
  pub admissions_per_minute : ℕ
  pub writer_per_minute : ℕ
  pub policy_per_minute : ℕ

abbrev pub window_length : ℕ
window_length = 60 * 1000000000

pub record Window : Type 0 where
  pub start : ℕ
  pub used : ℕ

-- `Window::new`.
abbrev pub new_window : ℕ → Window
new_window now = record { start = now; used = 0 }

abbrev pub is_over : Window → ℕ → Bool
is_over w now = leb window_length (now - w.start)

-- `Window::reset`: the window, and whether it began anew.
unfoldable pub reset : Window → ℕ → Window × Bool
reset w now = if is_over w now then (new_window now, true) else (w, false)

-- `Window::take`.
unfoldable pub take : Window → ℕ → ℕ → Window × Bool
unfolding reset
take w now limit =
    let w' = (reset w now).0 in
    if leb limit w'.used then (w', false) else (record w' { used = w'.used + 1 }, true)

pub record Writer : Type 0 where
  pub window : Window
  pub reserved : Bool
  pub last : Option ℕ

pub record State : Type 0 where
  pub writers : Map Writer
  pub admissions : Window
  pub burst : Window
  pub registry : Window
  pub revocations : Window

-- `Limiter::default`.
abbrev pub fresh : ℕ → State
fresh now = record {
  writers = [];
  admissions = new_window now;
  burst = new_window now;
  registry = new_window now;
  revocations = new_window now;
}

-- The eviction of writers whose window is over, when the table is full.
unfoldable pub evict : ℕ → ℕ → State → State
evict key now s =
    if not (is_some (lookup key s.writers)) && leb max_identities (length s.writers)
    then record s { writers = retain (λ k w. ltb (now - w.window.start) window_length) s.writers }
    else s

abbrev pub is_full : ℕ → State → Bool
is_full key s = not (is_some (lookup key s.writers)) && leb max_identities (length s.writers)

-- `entry(key).or_insert_with`, and the reset that follows it.
unfoldable pub open_writer : ℕ → ℕ → State → Writer
unfolding reset
open_writer key now s =
    let w : Writer = elim (lookup key s.writers) [
      | some w ↦ w
      | none ↦ record { window = new_window now; reserved = false; last = none }
    ] in
    let (window, anew) = reset w.window now in
    record { window = window; reserved = if anew then false else w.reserved; last = w.last }

-- The writer's own budget refuses: too soon after the last mutation, or too many in its window.
abbrev pub is_spent : Limits → ℕ → Writer → Bool
is_spent limits now w =
    is_some_and w.last (λ last. ltb (now - last) limits.put_min_interval)
    || leb limits.writer_per_minute w.window.used

-- The shared budgets: the protected mutation spends neither.
unfoldable pub take_shared : Bool → Bool → Limits → ℕ → State → State × Bool
unfolding take
take_shared reserved known limits now s =
    if reserved
    then (s, true)
    else if known
    then (let (w, allowed) = take s.burst now limits.put_per_minute in
        (record s { burst = w }, allowed))
    else (let (w, allowed) = take s.admissions now limits.admissions_per_minute in
        (record s { admissions = w }, allowed))

-- The writer after an admitted mutation.
abbrev pub charge : ℕ → Bool → Writer → Writer
charge now reserved w = record {
  window = record { start = w.window.start; used = w.window.used + 1 };
  reserved = w.reserved || reserved;
  last = some now;
}

-- The part of `record_at` once the writer is open.
unfoldable pub spend :
    ℕ → Bool → Limits → ℕ → State → Writer → State × Result DiscoveryError (Unit {0})
unfolding take_shared
spend key known limits now s w =
    let s' = record s { writers = insert key w s.writers } in
    if is_spent limits now w
    then (s', err rate_limited)
    else (let reserved = known && not w.reserved in
        let (t, allowed) = take_shared reserved known limits now s' in
        if allowed
        then (record t { writers = insert key (charge now reserved w) t.writers }, ok tt)
        else (t, err rate_limited))

-- `Limiter::record_at`.
unfoldable pub record_at : ℕ → Bool → Limits → ℕ → State → State × Result DiscoveryError (Unit {0})
record_at key known limits now s =
    let s' = evict key now s in
    if is_full key s'
    then (s', err rate_limited)
    else spend key known limits now s' (open_writer key now s')

-- `Limiter::policy`.
unfoldable pub policy : Bool → Limits → ℕ → State → State × Result DiscoveryError (Unit {0})
unfolding take
policy revocations limits now s =
    if revocations
    then (let (w, allowed) = take s.revocations now limits.policy_per_minute in
        (record s { revocations = w }, if allowed then ok tt else err rate_limited))
    else (let (w, allowed) = take s.registry now limits.policy_per_minute in
        (record s { registry = w }, if allowed then ok tt else err rate_limited))

-- `Enrollment`. A key is the number of its bytes.
pub record Enrollment : Type 0 where
  pub keys : List ℕ
  pub unrestricted : Bool

unfoldable pub allows : ℕ → Enrollment → Bool
allows key e = e.unrestricted || contains key e.keys

module _ (crypto : Crypto) where
  -- The loop of `Enrollment::new` over the remaining keys.
  unfoldable pub enroll : ℕ → List ℕ → List ℕ → Result DiscoveryError (List ℕ)
  enroll index enrolled [] = ok enrolled
  enroll index enrolled (k ∷ ks) =
      let rest = enroll (index + 1) (k ∷ enrolled) ks in
      if leb max_identities index
      then err configuration
      else if not (crypto.key_valid k)
      then err configuration
      else if crypto.key_weak k || contains k enrolled
      then err configuration
      else rest

  -- `Enrollment::new`.
  unfoldable pub new_enrollment : List ℕ → Result DiscoveryError Enrollment
  new_enrollment keys = elim (enroll 0 [] keys) [
    | ok enrolled ↦ ok (record { keys = enrolled; unrestricted = false })
    | err e ↦ err e
  ]
