-- ===== src/Agent/Revocations.antt =====
-- crates/rds-agent/src/revocations.rs: the revoked grants and how fresh they are. `Reading::now` is the
-- argument `clock`, `none` where it fails; an owner is the number that its allocation has.
use remote_device_sync.Base.{ℕ, Bool, ◌||◌, ◌&&◌, not, List, Option, contains, is_some_and}
use remote_device_sync.Discovery.Clock.{Reading, Lease, valid_at}

pub record RevocationPolicy : Type 0 where
  pub ids : List ℕ
  pub lease : Option Lease
  pub revision : Option (ℕ × ℕ)
  pub is_local : Bool
  pub owner : Option ℕ

unfoldable pub fresh : Option Reading → RevocationPolicy → Bool
fresh clock p = p.is_local || is_some_and clock (λ now. is_some_and p.lease (λ l. valid_at l now))

unfoldable pub revocations_permit : Option Reading → ℕ → RevocationPolicy → Bool
revocations_permit clock id p = fresh clock p && not (contains id p.ids)
