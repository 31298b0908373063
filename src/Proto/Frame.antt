-- ===== src/Proto/Frame.antt =====
-- include/feed/frame.hpp, and what the frame splitters share.
use mpmc_with_memory_managem.Base.{ℕ, ◌+◌, Bool, true, false}

abbrev pub frame_capacity : ℕ
frame_capacity = 1500

-- A splitter counts at most one message for each byte of its frame, so that no counter wraps.
pub record Stats : Type 0 where
  pub saved : ℕ
  pub skipped : ℕ
  pub consumed : ℕ

abbrev pub stats_init : Stats
stats_init = record { saved = 0; skipped = 0; consumed = 0 }

-- `++stats.saved` or `++stats.skipped`, as the handler answers.
abbrev pub count : Bool → Stats → Stats
count true stats = record stats { saved = stats.saved + 1 }
count false stats = record stats { skipped = stats.skipped + 1 }
