-- ===== src/Discovery/Admission/Trial.antt =====
-- Runs of the admission limiter (crates/rds-discovery/src/admission.rs) with small limits.
use remote_device_sync.Base.{
  ℕ, ◌≤◌, ◌≡◌, ◌⊎◌, inl, refl, true, false, List, [], ◌∷◌, none, some, ok, err, length, arith,
}
use remote_device_sync.Base.Map.{lookup, insert}
use remote_device_sync.Crypto.{Crypto}
use remote_device_sync.Discovery.{rate_limited}
use remote_device_sync.Discovery.Admission.{
  Limits, Writer, State, fresh, reset, take, evict, open_writer, take_shared, spend, record_at,
  Enrollment,
}
use remote_device_sync.Discovery.Admission.Budget.{
  Standing, running, record_at-protected, record_at-refused,
}
use remote_device_sync.Discovery.Admission.Bounds.{IsBudgeted, record_at-IsBudgeted}

abbrev limits : Limits
limits = record {
  put_min_interval = 1;
  put_per_minute = 1;
  admissions_per_minute = 1;
  writer_per_minute = 1;
  policy_per_minute = 1;
}

-- The state after the first mutation of the writer 7.
abbrev admitted : State
admitted = (record_at 7 false limits 100 (fresh 100)).0

fresh-IsBudgeted : IsBudgeted limits (fresh 100)
fresh-IsBudgeted = record {
  sorted = tt;
  bounded = omega arith;
  burst = omega arith;
  admissions = omega arith;
  writers = λ k w e. absurd (unfold lookup in cc);
}

record_at-IsBudgeted_example : IsBudgeted limits (record_at 7 false limits 100 (fresh 100)).0
record_at-IsBudgeted_example = record_at-IsBudgeted limits 7 false 100 (fresh 100) fresh-IsBudgeted

-- The known writer 7 in the same minute, when both shared budgets are used up.
abbrev known_limits : Limits
known_limits = record limits { put_per_minute = 0; writer_per_minute = 2 }

abbrev seventh : Writer
seventh = record { window = record { start = 100; used = 1 }; reserved = false; last = some 100 }

admitted_seventh : lookup 7 admitted.writers ≡ some seventh
unfolding record_at evict open_writer spend take_shared take reset lookup insert
admitted_seventh = refl

record_at-protected_example :
    let (t, r) = record_at 7 true known_limits 101 admitted in
    (r ≡ ok tt)
    × (t.burst ≡ admitted.burst)
    × (t.admissions ≡ admitted.admissions)
    × (lookup 7 t.writers
        ≡ some (record {
          window = record { start = 100; used = 2 };
          reserved = true;
          last = some 101;
        }))
record_at-protected_example =
    record_at-protected 7 known_limits 101 admitted seventh (inl (seventh, admitted_seventh))
      (running seventh admitted_seventh (omega arith)) (omega arith) (omega arith) refl

seventh_refused : (record_at 7 false limits 101 admitted).1 ≡ err rate_limited
unfolding record_at evict open_writer spend take_shared take reset lookup insert
seventh_refused = refl

record_at-refused_example :
    let t = (record_at 7 false limits 101 admitted).0 in
    (((lookup 7 admitted.writers ≡ none) × (lookup 7 t.writers ≡ none))
      ⊎ ((w : Writer) × Standing 7 101 admitted w × (lookup 7 t.writers ≡ some w)))
    × (t.burst.used ≤ admitted.burst.used)
    × (t.admissions.used ≤ admitted.admissions.used)
record_at-refused_example =
    record_at-refused 7 limits 101 admitted false rate_limited seventh_refused

abbrev crypto : Crypto
crypto = record {
  key_valid = λ k. true;
  key_weak = λ k. false;
  verify_strict = λ k m s. true;
  hash = λ m. length m;
}

abbrev two_keys : List ℕ
two_keys = 5 ∷ 6 ∷ []

abbrev enrolled : Enrollment
enrolled = record { keys = 6 ∷ 5 ∷ []; unrestricted = false }
