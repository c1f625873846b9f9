-- ===== src/Fetch/Response/GiveBack.antt =====
-- librespot_src/audio/src/fetch/receive.rs: `receive_data` as a whole.
use neotune.Fetch.Response.{Response}
