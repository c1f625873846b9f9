-- ===== src/Lib.antt =====
-- NeoTune's playback engine, librespot_src, as a library of models and theorems.
--
-- The application is a terminal client (Python) around this engine (Rust). The engine logs in to
-- Spotify, keeps the player's state in step with other devices (connect), and downloads, decodes
-- and plays audio. What is modelled is the part of the engine that decides: data structures and
-- state, without the network, the audio devices and the clock.
--
-- In Common: shared helpers. A Rust `str` is the list of its bytes (ASCII in every literal), a `usize`
--   and a `u64` are natural numbers whose sums are taken modulo 2 ^ 64.
-- In RangeSet: librespot_src/audio/src/range_set.rs, the byte ranges of a download. The loops over an
--   index are recursions on the ranges from that index on.
-- In ShuffleVec: librespot_src/connect/src/shuffle_vec.rs. The generator is the crate `rand`'s, the
--   record `Rng` with the documented range of `random_range`. `swap` panics out of range in the
--   source, and leaves the list in the model.
-- In SpotifyId: librespot_src/core/src/spotify_id.rs: base 62, base 16 and raw bytes, both
--   ways. The writes of `to_base62` go to an array of 22 bytes and are `none` behind it; the loop
--   `while carry > 0` has fuel 23, since a round moves on by one place and a 23rd would write behind
--   the array.
-- In SpotifyUri: librespot_src/core/src/spotify_uri.rs, reading and printing. The parts between colons
--   are a list that is read from its front. A duration is its seconds.
-- In Connect: librespot_src/connect/src/state.rs and the files of librespot_src/connect/src/state/. A
--   method that cannot fail is a function on `ConnectState`; one that can is an `Exec`, which keeps
--   what was written before an error, as `&mut self` does. Track and State are metadata.rs,
--   provider.rs and the records; Player is options.rs, restrictions.rs and the setters of state.rs;
--   Context and Resume are context.rs; Fill, Tracks and Queue are tracks.rs; Handle is handle.rs and
--   the shuffle of options.rs; Reach is the relation of the states that these methods lead through,
--   which spirc.rs calls itself or through the context resolver. `index.page` is the iteration, and `u32` fields are taken modulo
--   2 ^ 32. Errors carry what they print. `queue_revision` is a hash of uris in the source and the
--   uris in the model. The loop of `fill_up_next_tracks` has fuel 81 * (n + 2) for contexts of n
--   tracks: between two pushes at most n tracks are skipped, and 80 pushes fill the list. Convert is
--   the conversion of tracks that are received, Update the contexts that arrive, and Transfer is
--   transfer.rs; the ids that the crate `uuid` makes are arguments. Not modelled: the device info, time stamps, playback speed, and the
--   requests to the server.
-- In Fetch: librespot_src/audio/src/fetch/mod.rs and librespot_src/audio/src/fetch/receive.rs, a file
--   while it is downloaded. Download is `download_range` and `pre_fetch_more_data`; Receive is
--   `handle_file_data`, whose `Disk` says how the calls of the file and the channel end; Response is `receive_data`, on the list of what the streamer gives; Main is the
--   loop of `audio_file_fetch`, on a list of turns that may interleave with the other threads in any
--   order; Stream is the reader with `read` and `seek`, and Controller what the player asks for. What
--   a thread is woken with is an argument; so are the thresholds that the source computes on floats.
--   A file is the list of its bytes. The HTTP library is a test whether it takes a request. Not
--   modelled: the opening of a file, and its cache.
-- In Player: librespot_src/playback/src/player.rs, `PlayerInternal`. The methods return a `Run`, in which
--   an error, the exit of the process and a wait that has not ended are results; `?` is its bind. What
--   the clock, the device, the decoder and the loaders answer while a part of `poll` runs is a `World`,
--   and one round of its loop a `Turn`. Sink is playing, pausing and stopping, Load is
--   `handle_command_load` and `handle_command_preload`, Command is `handle_command` with the seek, and
--   Poll the rounds. Times are nanoseconds. Not modelled: the loading of a track by its thread, the
--   metadata of a track, and the volume and the normalisation of samples.
-- In Cache: the `SizeLimiter` of librespot_src/core/src/cache.rs. Its priority queue comes from a crate
--   and is the record `PriorityQueue`. Not modelled: the directory and the deletion of files.
-- In Resolver: librespot_src/connect/src/context_resolver.rs, the queue of the contexts to resolve. The
--   equality of entries, which compares messages, is an argument. Apply is `apply_next_context`,
--   and Finish `try_finish`. Not modelled: the requests to the server.
-- In Spirc: librespot_src/connect/src/spirc.rs, the task that handles commands and the events of the
--   player. The clock is an argument of each handler; what is told to the player is a list. Play is
--   playing, pausing and seeking; Skip is `handle_next`, `handle_prev`, `load_track` and `handle_stop`;
--   Skip.Events is `handle_player_event`; Command is `handle_command`, and the relation of the states
--   that commands, events, requests and loads lead through; Request is `handle_request` for what neither
--   transfers, plays nor updates a context; Load is `handle_load`, with the load of a context by
--   its uri and the numbers drawn as arguments. The loop of `handle_next` has fuel as an argument, since the
--   source's does not always end. Not modelled: resolving the uri of a context to load,
--   `handle_transfer`, the requests that play or update a context, the volume's cache, and what is sent to the server.
--
-- Not modelled: the terminal client (Python), protobuf messages, the network and session layer,
-- authentication, the decoders and audio devices, discovery, and the metadata requests.
pub mod Cache
pub mod Common
pub mod Connect
pub mod Fetch
pub mod Player
pub mod RangeSet
pub mod Resolver
pub mod ShuffleVec
pub mod Spirc
pub mod SpotifyId
pub mod SpotifyUri
