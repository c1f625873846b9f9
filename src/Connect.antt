-- ===== src/Connect.antt =====
-- librespot_src/connect/src/state: the connect state, that is the player as other devices see it,
-- with its current, previous and next tracks, and the contexts that these are filled from.
pub mod Tests
pub mod Track
pub mod State
pub mod Player
pub mod Exec
pub mod Context
pub mod Resume
pub mod Convert
pub mod Update
pub mod Transfer
pub mod Fill
pub mod Tracks
pub mod Queue
pub mod Handle
pub mod Reach
