-- ===== src/Spirc/Skip/Events/Sync.antt =====
-- librespot_src/connect/src/spirc.rs: what the events of the player do to the play status.
use neotune.Common.{ℕ, ◌+◌, ◌^◌, ◌≤◌, ◌<◌, ◌≡◌, ◌⊎◌, Bool}
use neotune.Connect.Handle.Status.{
  SpircPlayStatus, stopped, loading_play, loading_pause, playing, paused,
}

-- The task takes the player as playing from a start that is at most 100 ms away from the one that the
-- position gives.
abbrev pub InSync : ℕ → ℕ → SpircPlayStatus → Type 0
InSync now position_ms p =
    (start : ℕ) × ((b : Bool) × ((p ≡ playing start b)
        × (start + position_ms ≤ now + 100)
        × (now ≤ start + position_ms + 100)))

-- A start that is no negative `i64`.
abbrev pub StartFits : SpircPlayStatus → Type 0
StartFits stopped = Unit
StartFits (loading_play q) = Unit
StartFits (loading_pause q) = Unit
StartFits (playing start b) = start < 2 ^ 63
StartFits (paused q b) = Unit

-- The two statuses in which such an event is ignored.
abbrev pub IsIdle : SpircPlayStatus → Type 0
IsIdle p = (p ≡ stopped) ⊎ ((q : ℕ) × ((b : Bool) × (p ≡ paused q b)))
