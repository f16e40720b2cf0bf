-- ===== src/Examples/Playlists.antt =====
-- Pages of two playlists of a table of four, one of which has an error and one no title.
use Prim.Native.String.{String}
use qarau.Common.{suc, ◌≡◌, refl, none, some, Option, List, [], ◌∷◌, length, arith}
use qarau.Common.Int.{ℤ, pos}
use qarau.Common.Result.{Result, ok}
use qarau.Common.Sorted.{IsKeyed}
use qarau.Playlists.{PlaylistRow, PlaylistLoad, key, is_listed, results}
use qarau.Playlists.Client.{follow}
use qarau.Playlists.Ordered.{listed}
use qarau.Playlists.Followed.{follow-results}

abbrev row : ℤ → Option String → String → PlaylistRow
row id e title = record {
  id = id;
  online_playlist_id = "p";
  error = e;
  title = title;
  item_count = pos 3;
  thumbnail_url = "u";
  thumbnail_width = pos 120;
  thumbnail_height = pos 90;
  created_at = 5;
}

abbrev rows : List PlaylistRow
rows =
    row (pos 1) none "one"
    ∷ row (pos 4) none ""
    ∷ row (pos 2) (some "gone") ""
    ∷ row (pos 3) none "three"
    ∷ []

abbrev loads : String → PlaylistLoad
loads id = record {
  playlist = some (record {
    online_playlist_id = id;
    title = "four";
    thumbnail_url = "v";
    thumbnail_width = pos 120;
    thumbnail_height = pos 90;
    item_count = pos 7;
  });
  err_msg = "";
}

abbrev api : List String → Result (String → PlaylistLoad)
api ids = ok loads

rows-IsKeyed : IsKeyed key (is_listed none) rows
rows-IsKeyed = (
  λ e. (
    (λ f q. absurd (ground arith)),
    ((λ f q. absurd (ground arith)), ((λ f q. absurd (ground arith)), tt)),
  ),
  (
    λ e. ((λ f q. absurd (ground arith)), ((λ f q. absurd (ground arith)), tt)),
    (λ e. ((λ f q. absurd (ground arith)), tt), (λ e. tt, tt)),
  ),
)

follow-results_example :
    follow api (suc (length (listed rows))) none 2 rows ≡ some (results loads (listed rows))
follow-results_example =
    follow-results loads api 2 rows (λ ids. refl) (omega arith) (omega arith) rows-IsKeyed
