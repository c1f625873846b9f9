-- ===== src/SpotifyUri/Tests.antt =====
-- Uris of the source's tests, and the theorems at some.
use neotune.Common.{◌≡◌, refl, some, codes, ok, err, arith, show_u64, parse_u64}
use neotune.SpotifyId.{SpotifyId}
use neotune.SpotifyUri.{
  playlist, local_file, unknown, invalid_format, invalid_root, from_uri, to_uri, split, parse_type,
  parse_item, parse_local, to_id, item_type,
}
use neotune.SpotifyUri.RoundTrip.{ReadsBack, from_uri-to_uri}

abbrev first_id : SpotifyId
first_id = record { id = 238762092608182713602505436543891614649 }

-- The unknown types of the source, a local file, a missing name, and another root.
from_uri_runs :
    (from_uri (codes "spotify:arbitrarywhatever:x")
      ≡ ok (unknown (codes "arbitrarywhatever") (codes "x")))
    × (from_uri (codes "spotify:local:a:b:c:127")
        ≡ ok (local_file (codes "a") (codes "b") (codes "c") 127))
    × (from_uri (codes "spotify:album") ≡ err invalid_format)
    × (from_uri (codes "arbitrarywhatever:undefined:x") ≡ err invalid_root)
unfolding from_uri split parse_type parse_item parse_local parse_u64
from_uri_runs = (refl, refl, refl, refl)

to_uri_local :
    to_uri (local_file (codes "a") (codes "b") (codes "c") 127)
    ≡ some (codes "spotify:local:a:b:c:127")
unfolding to_uri to_id item_type show_u64
to_uri_local = refl

from_uri-to_uri_example : ReadsBack (playlist (some (codes "spotify")) first_id)
from_uri-to_uri_example =
    from_uri-to_uri (playlist (some (codes "spotify")) first_id) (refl, omega arith)
