-- ===== src/Discovery/Tests.antt =====
-- Runs of the signed directory (crates/rds-discovery) with stand-ins for the libraries: every key is
-- valid, a signature counts if it has 64 bytes, and each payload decodes to one fixed value.
use remote_device_sync.Base.{
  ℕ, zero, suc, ◌+◌, ◌≤◌, ◌<◌, ◌≡◌, refl, ◌⊎◌, true, false, List, [], ◌∷◌, ◌++◌, none, some, ok,
  length, ◌==◌, arith,
}
use remote_device_sync.Crypto.{Crypto}
use remote_device_sync.Discovery.{nanos}
use remote_device_sync.Discovery.Clock
use remote_device_sync.Discovery.Clock.{Reading, Lease, valid_at, remaining_at, matches_interval}
use remote_device_sync.Discovery.Clock.Laws.{new-bounded, remaining_at-valid_at}
use remote_device_sync.Discovery.Wire.{
  EndpointRecord, Payload, DeleteRequest, DeletePayload, published, deleted, Libraries, Service,
}
use remote_device_sync.Discovery.Authority
use remote_device_sync.Discovery.Authority.{
  Authority, SignedRotation, RotationPayload, lifetime, verifying_key, verify_at,
}
use remote_device_sync.Discovery.Authority.Laws.{IsTransition, verify_at-IsTransition}
use remote_device_sync.Discovery.RecordWire.{
  record_domain, metadata, check_each, validate, check_version, verify_record, verify_delete,
}
use remote_device_sync.Discovery.RecordWire.Laws.{IsUsable, verify_record-IsUsable}
use remote_device_sync.Discovery.Records
use remote_device_sync.Discovery.Records.{
  Stored, active, retired, Decision, details, entry_digest, digest, retire, repeat, choose, compare,
  with_details, decide_put, answer, decide,
}
use remote_device_sync.Discovery.Records.Floor.{Advanced, decide-Advanced}
use remote_device_sync.Discovery.Records.Live.{decide-read}
use remote_device_sync.Discovery.Records.Acknowledge.{IsStored, IsHeld, decide-acknowledged}
use remote_device_sync.Discovery.Records.Memory.{empty}
use remote_device_sync.Discovery.Records.Memory.Floor.{Keeps}
use remote_device_sync.Discovery.Records.Memory.Steps.{
  access, collect, run, empty-IsSound, run-Keeps,
}

abbrev zeros : ℕ → List ℕ
zeros zero = []
zeros (suc n) = 0 ∷ zeros n

abbrev crypto : Crypto
crypto = record {
  key_valid = λ k. true;
  key_weak = λ k. false;
  verify_strict = λ k m s. length s == 64;
  hash = λ m. length m;
}

-- 1100 seconds of wall time, and the same boot ten seconds later.
abbrev now : Reading
now = record { boot = 1; wall = 1100000000000; continuous = 5000000000 }

abbrev soon : Reading
soon = record { boot = 1; wall = 1110000000000; continuous = 15000000000 }

abbrev lease : Lease
lease = record {
  boot = 1;
  issued_at = 1000;
  expires_at = 1300;
  accepted_wall = 1100000000000;
  accepted_continuous = 5000000000;
  deadline = 205000000000;
}

new_run : Clock.new 1000 1300 now ≡ ok lease
unfolding Clock.new
new_run = refl

new-bounded_example :
    (soon.boot ≡ now.boot)
    × (now.wall ≤ soon.wall)
    × (now.continuous ≤ soon.continuous)
    × (soon.wall < nanos 1300)
    × (soon.continuous + now.wall < now.continuous + nanos 1300)
unfolding valid_at
new-bounded_example = new-bounded 1000 1300 now soon lease new_run refl

remaining_at-valid_at_example : valid_at lease soon ≡ true
unfolding remaining_at valid_at
remaining_at-valid_at_example =
    remaining_at-valid_at lease now soon refl (omega arith) (omega arith) (omega arith)
      (omega arith)

abbrev first : Authority
first = record { key = 11; epoch = 1 }

abbrev transition : RotationPayload
transition = record {
  previous = first;
  next = record { key = 12; epoch = 2 };
  issued_at = 1000;
  expires_at = 1300;
}

abbrev receipt : SignedRotation
receipt = record { payload = 1 ∷ []; previous_signature = zeros 64; next_signature = zeros 64 }

verify_at-IsTransition_example :
    (some transition ≡ some transition)
    × IsTransition crypto receipt first transition
    × (1000 ≤ 1100)
    × (1100 < 1300)
unfolding verify_at verifying_key Authority.verify lifetime
verify_at-IsTransition_example =
    verify_at-IsTransition crypto (λ b. some transition) receipt first 1100 transition refl

abbrev payload : Payload
payload = record {
  version = 1;
  key = 7;
  revision = 4;
  addrs = [];
  relay_urls = [];
  services = Service.sync ∷ Service.ping ∷ [];
  issued_at = 1000;
  expires_at = 1300;
}

abbrev farewell : DeletePayload
farewell = record { version = 1; key = 7; revision = 5; issued_at = 1000; expires_at = 1200 }

abbrev the_record : EndpointRecord
the_record = record { key = 7; payload = 1 ∷ 2 ∷ []; signature = zeros 64 }

abbrev the_delete : DeleteRequest
the_delete = record { key = 7; payload = 1 ∷ 3 ∷ []; signature = zeros 64 }

abbrev libraries : Libraries
libraries = record {
  crypto = crypto;
  take_u16 = λ b. some (1, []);
  take_payload = λ b. some (payload, []);
  take_delete = λ b. some (farewell, []);
  encode_entry = λ e. some (7 ∷ []);
  parse_url = λ b. none;
  parse_ip = λ b. none;
}

verify_record-IsUsable_example :
    (crypto.verify_strict 7 (record_domain ++ the_record.payload) the_record.signature ≡ true)
    × (length the_record.payload ≤ 8192)
    × (libraries.take_payload the_record.payload ≡ some (payload, []))
    × (payload.key ≡ the_record.key)
    × IsUsable libraries payload
unfolding verify_record Authority.verify check_version validate metadata check_each
verify_record-IsUsable_example = verify_record-IsUsable libraries the_record payload refl

-- A publication, and a deletion after it.
abbrev stored : Stored
stored = active (published the_record) lease

abbrev publication : Decision
publication = record { replacement = some stored; result = ok none }

abbrev removal_lease : Lease
removal_lease = record {
  boot = 1;
  issued_at = 1000;
  expires_at = 1200;
  accepted_wall = 1110000000000;
  accepted_continuous = 15000000000;
  deadline = 105000000000;
}

abbrev removed : Stored
removed = active (deleted the_delete) removal_lease

abbrev removal : Decision
removal = record { replacement = some removed; result = ok none }

publication_run : decide libraries none (some (published the_record)) 7 now ≡ ok publication
unfolding decide answer decide_put details with_details compare choose verify_record
    Authority.verify check_version validate metadata check_each Clock.new
publication_run = refl

stored_run : Records.verify libraries stored 7 ≡ ok 4
unfolding Records.verify details verify_record Authority.verify check_version validate metadata
    check_each matches_interval
stored_run = refl

removal_run : decide libraries (some stored) (some (deleted the_delete)) 7 soon ≡ ok removal
unfolding decide answer decide_put details with_details compare choose verify_record verify_delete
    Authority.verify check_version validate metadata check_each Clock.new retire valid_at
    Records.verify matches_interval
removal_run = refl

decide-Advanced_example : Advanced libraries 7 soon stored 4 (some (deleted the_delete)) removed
decide-Advanced_example =
    decide-Advanced libraries 7 soon stored 4 stored_run (some (deleted the_delete)) removal removed
      removal_run refl

abbrev answered : Decision
answered = record { replacement = none; result = ok (some the_record) }

decide-read_example :
    ((l : Lease) × (some stored ≡ some (active (published the_record) l))
      × (valid_at l soon ≡ true))
    × (answered.replacement ≡ none)
unfolding decide answer retire valid_at
decide-read_example = decide-read libraries 7 soon (some stored) answered the_record refl refl

decide-acknowledged_example :
    IsStored libraries 7 (deleted the_delete) soon removal
    ⊎ IsHeld libraries 7 (some stored) (deleted the_delete) soon
decide-acknowledged_example =
    decide-acknowledged libraries 7 soon (some stored) (deleted the_delete) removal removal_run refl

run-Keeps_example : Keeps libraries 2 empty (
    run libraries 2
      (access 7 (some (published the_record)) (ok now) (λ known. ok tt)
        ∷ access 7 (some (deleted the_delete)) (ok soon) (λ known. ok tt)
        ∷ collect soon
        ∷ [])
      empty)
run-Keeps_example =
    run-Keeps libraries 2
      (access 7 (some (published the_record)) (ok now) (λ known. ok tt)
        ∷ access 7 (some (deleted the_delete)) (ok soon) (λ known. ok tt)
        ∷ collect soon
        ∷ [])
      empty (empty-IsSound libraries 2)
