-- ===== src/Crypto.antt =====
-- What the program uses of ed25519-dalek and blake3, as a parameter: whether a key's bytes are a
-- valid point, whether the point is weak, the strict check of a signature over a message, and the
-- digest of a message. A key or a digest is the number that its bytes spell, the highest first.
use remote_device_sync.Base.{ℕ, List, Bool}

pub record Crypto : Type 0 where
  pub key_valid : ℕ → Bool
  pub key_weak : ℕ → Bool
  pub verify_strict : ℕ → List ℕ → List ℕ → Bool
  pub hash : List ℕ → ℕ
