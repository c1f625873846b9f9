-- ===== src/Player/Load/Once.antt =====
-- librespot_src/playback/src/player.rs: a track that is preloaded is not loaded again.
use neotune.Common.{
  ℕ, ◌≡◌, refl, true, false, ◌==◌, Option, none, some, List, arith, inl, inr, bytes_eq_refl,
  Bool-cases,
}
use neotune.SpotifyUri.{
  SpotifyUri, album, artist, episode, playlist, show, track, local_file, unknown,
}
use neotune.Player.{no_preload, preloading, PlayerInternal, set_preload}
use neotune.Player.Uri.{user_eq, uri_eq}
use neotune.Player.Load.{is_preloaded, is_loaded, new_loader, spawn_load, handle_command_preload}

number_eq_refl : (n : ℕ) → n == n ≡ true
number_eq_refl n = ground arith

user_eq_refl : (u : Option (List ℕ)) → user_eq u u ≡ true
user_eq_refl none = refl
user_eq_refl (some u) = bytes_eq_refl u

uri_eq_refl : (u : SpotifyUri) → uri_eq u u ≡ true
unfolding uri_eq
uri_eq_refl (album i) = number_eq_refl i.id
uri_eq_refl (artist i) = number_eq_refl i.id
uri_eq_refl (episode i) = number_eq_refl i.id
uri_eq_refl (show i) = number_eq_refl i.id
uri_eq_refl (track i) = number_eq_refl i.id
uri_eq_refl (playlist u i) = simp (user_eq_refl u, number_eq_refl i.id) refl
uri_eq_refl (local_file a l t d) =
    simp (bytes_eq_refl a, bytes_eq_refl l, bytes_eq_refl t, number_eq_refl d) refl
uri_eq_refl (unknown k i) = simp (bytes_eq_refl k, bytes_eq_refl i) refl

preload_loaded :
    (uri : SpotifyUri) (p : PlayerInternal)
    → is_preloaded uri p.preload ≡ false
    → is_loaded uri p.state ≡ true
    → handle_command_preload uri p ≡ set_preload no_preload p
unfolding handle_command_preload
preload_loaded uri p off here = simp (handle_command_preload, off, here) refl

-- A request to preload a track that has just been requested changes nothing: no second load is started.
pub handle_command_preload-handle_command_preload :
    (uri : SpotifyUri) (p : PlayerInternal)
    → handle_command_preload uri (handle_command_preload uri p) ≡ handle_command_preload uri p
unfolding handle_command_preload is_preloaded set_preload spawn_load
handle_command_preload-handle_command_preload uri p =
    elim (Bool-cases (is_preloaded uri p.preload)) [
      | inl on ↦
          (let once : handle_command_preload uri p ≡ p = simp (handle_command_preload, on) refl in
            rw (once) once)
      | inr off ↦ elim (Bool-cases (is_loaded uri p.state)) [
        | inl here ↦
            (let once = preload_loaded uri p off here in
              rw (once) (preload_loaded uri (set_preload no_preload p) refl here))
        | inr away ↦
            (let q = set_preload (preloading uri (new_loader uri 0)) (spawn_load uri 0 p) in
              let once : handle_command_preload uri p ≡ q =
                simp (handle_command_preload, off, away) refl in
              let again : handle_command_preload uri q ≡ q =
                simp (handle_command_preload, uri_eq_refl uri) refl in
              rw (once) again)
      ]
    ]
