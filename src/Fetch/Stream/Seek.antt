-- ===== src/Fetch/Stream/Seek.antt =====
-- librespot_src/audio/src/fetch/mod.rs: `AudioFileStreaming::seek`. An `i64` is its word of 64 bits.
use neotune.Common.{
  ℕ, ◌^◌, ◌<◌, ◌≡◌, ◌≢◌, refl, Bool, true, false, not, ◌&&◌, Option, none, some, arith, ltb, ◌==◌,
  usize_mod, add_usize, sub_usize, if◌then◌else◌, Result, ok, err,
}
use neotune.RangeSet.{contains}
use neotune.Fetch.Stream.{AudioFileStreaming, IoError, invalid_input}

pub data SeekFrom : Type 0 where
  start end current : ℕ → SeekFrom

-- The position that `seek` looks up before it moves.
unfoldable pub requested_pos : SeekFrom → AudioFileStreaming → ℕ
requested_pos (start pos) f = pos
requested_pos (end pos) f = sub_usize (sub_usize f.shared.file_size pos) 1
requested_pos (current pos) f = add_usize f.position pos

-- The position that the file moves to.
unfoldable pub target_pos : SeekFrom → AudioFileStreaming → ℕ
target_pos (start pos) f = pos
target_pos (end pos) f = add_usize f.shared.file_size pos
target_pos (current pos) f = add_usize f.position pos

-- `seek` of a file: a negative position is an error.
unfoldable pub file_seek : SeekFrom → AudioFileStreaming → Option ℕ
unfolding target_pos
file_seek pos f = if ltb (target_pos pos f) (2 ^ 63) then some (target_pos pos f) else none

unfoldable pub set_download_streaming : Bool → AudioFileStreaming → AudioFileStreaming
set_download_streaming on f = record f { shared = record f.shared { download_streaming = on } }

unfoldable pub move_to : ℕ → AudioFileStreaming → AudioFileStreaming
move_to p f = record f { position = p; shared = record f.shared { read_position = p } }

-- From the look-up on.
unfoldable pub seek_file : SeekFrom → AudioFileStreaming → Result IoError ℕ × AudioFileStreaming
unfolding file_seek set_download_streaming move_to
seek_file pos f =
    let available = contains f.shared.downloaded (requested_pos pos f) in
    let was_streaming = not available && f.shared.download_streaming in
    let f' = if was_streaming then set_download_streaming false f else f in
    elim (file_seek pos f) [
      | none ↦ (err invalid_input, f')
      | some p ↦ (
        ok p,
        (let moved = move_to p f' in
            if was_streaming then set_download_streaming true moved else moved),
      )
    ]

unfoldable pub seek : SeekFrom → AudioFileStreaming → Result IoError ℕ × AudioFileStreaming
unfolding seek_file
seek pos f = elim (requested_pos pos f == f.position) [
  | true ↦ (ok f.position, f)
  | false ↦ seek_file pos f
]

-- From the start or from where the file is, the position that is looked up is the one that is sought;
-- from the end it never is.
pub requested_pos-target_pos :
    (p : ℕ) (f : AudioFileStreaming)
    → p < usize_mod
    → f.shared.file_size < usize_mod
    → (requested_pos (start p) f ≡ target_pos (start p) f)
      × (requested_pos (current p) f ≡ target_pos (current p) f)
      × (requested_pos (end p) f ≢ target_pos (end p) f)
unfolding requested_pos target_pos add_usize sub_usize
requested_pos-target_pos p f small size = (refl, refl, λ h. absurd (omega arith))

abbrev is_available : SeekFrom → AudioFileStreaming → Bool
is_available pos f = contains f.shared.downloaded (requested_pos pos f)

module _ (pos : SeekFrom) (f : AudioFileStreaming) where
  -- The mode while the file moves.
  abbrev switched : AudioFileStreaming
  switched =
      if not (is_available pos f) && f.shared.download_streaming
      then set_download_streaming false f
      else f

  -- It moves to the position that is returned, and the mode is the one before.
  abbrev pub Moves : Result IoError ℕ × AudioFileStreaming → Type 0
  Moves o =
      (p : ℕ) × ((o.0 ≡ ok p)
        × (o.1.position ≡ p)
        × (o.1.shared.download_streaming ≡ f.shared.download_streaming))

  abbrev pub Fails : Result IoError ℕ × AudioFileStreaming → Type 0
  Fails o =
      (o.0 ≡ err invalid_input)
      × (o.1.position ≡ f.position)
      × (o.1.shared.download_streaming ≡ (f.shared.download_streaming && is_available pos f))
