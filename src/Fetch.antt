-- ===== src/Fetch.antt =====
-- librespot_src/audio/src/fetch/mod.rs: an audio file while it is downloaded. The state that the
-- threads share is one record, and what a thread waits for is an argument. Times are nanoseconds.
mod Tests
pub mod Download
pub mod Receive
pub mod Response
pub mod Stream
pub mod Controller
pub mod Main
use neotune.Common.{
  ℕ, ◌*◌, ◌^◌, Bool, true, false, Option, none, some, List, [], ltb, if◌then◌else◌,
}
use neotune.RangeSet.{Range, RangeSet}

pub record AudioFetchParams : Type 0 where
  pub minimum_download_size : ℕ
  pub minimum_throughput : ℕ
  pub initial_ping_time_estimate : ℕ
  pub maximum_assumed_ping_time : ℕ

abbrev pub second : ℕ
second = 10 ^ 9

abbrev pub millisecond : ℕ
millisecond = 10 ^ 6

-- `AudioFetchParams::default()`
abbrev pub default_params : AudioFetchParams
default_params = record {
  minimum_download_size = 64 * 1024;
  minimum_throughput = 8 * 1024;
  initial_ping_time_estimate = 500 * millisecond;
  maximum_assumed_ping_time = 1500 * millisecond;
}

-- `hyper_error` and `io_error` are the errors of the request and of the file.
pub data AudioFileError : Type 0 where
  channel header no_data output wait_timeout hyper_error io_error : AudioFileError
  status_code : ℕ → AudioFileError

pub data StreamLoaderCommand : Type 0 where
  fetch : Range → StreamLoaderCommand
  close : StreamLoaderCommand

pub record AudioFileShared : Type 0 where
  pub file_size : ℕ
  pub bytes_per_second : ℕ
  pub requested : RangeSet
  pub downloaded : RangeSet
  pub download_streaming : Bool
  pub ping_time_ms : ℕ
  pub read_position : ℕ
  pub throughput : ℕ

unfoldable pub ping_time : AudioFetchParams → AudioFileShared → ℕ
ping_time p s =
    if ltb 0 s.ping_time_ms then s.ping_time_ms * millisecond else p.initial_ping_time_estimate
