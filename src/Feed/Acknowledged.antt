-- ===== src/Feed/Acknowledged.antt =====
-- A turn of the reader's loop acknowledges the frame that it saw, whether it could use it or not.
use mathlib.Core.Option
use mpmc_with_memory_managem.Base.{ℕ, ◌≡◌, ◌≢◌, Option}
use mpmc_with_memory_managem.Feed.Stored.{IsStored}
use mpmc_with_memory_managem.Feed.Reader.{Reader}

-- What a turn leaves: the frame is acknowledged, and the rest of the inlet is as it was.
pub record IsAcknowledged (others : ℕ → ℕ) (r r' : Reader) : Type 0 where
  pub stored : IsStored others r'.store
  pub seen : r'.last_sequence ≡ r.inlet.sequence
  pub acknowledged : r.inlet.sequence ≢ r.last_sequence → r'.inlet.processed ≡ r.inlet.sequence
  pub untouched :
      (r'.inlet.slots ≡ r.inlet.slots)
      × (r'.inlet.published ≡ r.inlet.published)
      × (r'.inlet.sequence ≡ r.inlet.sequence)
