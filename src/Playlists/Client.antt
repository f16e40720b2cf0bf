-- ===== src/Playlists/Client.antt =====
-- A client that follows the cursor of the suggested playlists, and the rows that a page leaves.
use Prim.Native.String.{String}
use qarau.Common.{
  ℕ, zero, suc, ◌+◌, ◌≡◌, refl, ◌∙◌, Bool, true, false, ◌&&◌, Option, none, some, List, [], ◌∷◌,
  ◌++◌, inl, inr, Bool-cases, arith,
}
use qarau.Common.Int.{ℤ, pos, negsuc, leb_ℤ, ltb_ℤ, sub_ℕ, pos_part, neg_part}
use qarau.Common.Result.{Result, ok, err}
use qarau.Common.Tables.{update_where}
use qarau.Common.Sorted.{select_by_seq, IsAbove, IsIncreasing}
use qarau.Common.Sorted.Parts.{max_seq}
use qarau.Breakdowns.{eq_ℤ}
use qarau.Playlists.{
  save_playlist, PlaylistRow, PlaylistLoad, Playlist, SuggestedPlaylists, key, neg_ℤ, is_listed,
  has_no_error, save_load, save_loads, get_suggested_playlists, has_playlist_id,
  update_playlist_details, update_playlist_with_error, last_id,
}

abbrev pub append_playlists : List Playlist → Option (List Playlist) → Option (List Playlist)
append_playlists ps none = none
append_playlists ps (some more) = some (ps ++ more)

abbrev pub continue_from :
    Result SuggestedPlaylists × List PlaylistRow
    → (ℤ → List PlaylistRow → Option (List Playlist))
    → Option (List Playlist)
continue_from (err e, rows) more = none
continue_from (ok a, rows) more = elim a.next_cursor [
  | none ↦ some a.playlists
  | some cursor ↦ append_playlists a.playlists (more cursor rows)
]

-- The playlists of at most `n` pages, each requested with the cursor of the one before.
unfoldable pub follow :
    (List String → Result (String → PlaylistLoad))
    → ℕ
    → Option ℤ
    → ℕ
    → List PlaylistRow
    → Option (List Playlist)
follow api zero cursor size rows = none
follow api (suc n) cursor size rows =
    continue_from (get_suggested_playlists api cursor size rows)
      (λ next left. follow api n (some next) size left)

-- The key from which the rows before a cursor begin.
abbrev pub start_key : ℤ → ℤ
start_key cursor = sub_ℕ (neg_part cursor + 1) (pos_part cursor)

pub is_before-start_key : (cursor id : ℤ) → ltb_ℤ id cursor ≡ leb_ℤ (start_key cursor) (neg_ℤ id)
is_before-start_key (pos c) (pos n) = ground arith
is_before-start_key (pos c) (negsuc n) = ground arith
is_before-start_key (negsuc c) (pos n) = ground arith
is_before-start_key (negsuc c) (negsuc n) = ground arith

pub select-congr :
    (p q : PlaylistRow → Bool) (rows : List PlaylistRow)
    → ((r : PlaylistRow) → p r ≡ q r)
    → select_by_seq key p rows ≡ select_by_seq key q rows
unfolding select_by_seq
select-congr p q [] h = refl
select-congr p q (r ∷ rs) h = rw (h r, select-congr p q rs h) refl

-- An update of rows that are not selected, before or after, leaves the selection.
select-update_where :
    (p q : PlaylistRow → Bool) (f : PlaylistRow → PlaylistRow) (rows : List PlaylistRow)
    → ((r : PlaylistRow) → q r ≡ true → (p r ≡ false) × (p (f r) ≡ false))
    → select_by_seq key p (update_where q f rows) ≡ select_by_seq key p rows
unfolding select_by_seq update_where
select-update_where p q f [] h = refl
select-update_where p q f (r ∷ rs) h = elim (Bool-cases (q r)) [
  | inl e ↦ let (a, b) = h r e in rw (e, a, b) (select-update_where p q f rs h)
  | inr e ↦ rw (e, select-update_where p q f rs h) refl
]

-- The rows of a page have keys up to the last one's.
abbrev pub AreUpTo : ℤ → List PlaylistRow → Type 0
AreUpTo m [] = Unit {0}
AreUpTo m (r ∷ rs) = (leb_ℤ (key r) m ≡ true) × AreUpTo m rs

not_before :
    (cursor id k : ℤ)
    → leb_ℤ (neg_ℤ id) (neg_ℤ cursor) ≡ true
    → eq_ℤ k id ≡ true
    → ltb_ℤ k cursor ≡ false
not_before (pos c) (pos n) k le e = ground arith
not_before (pos c) (negsuc n) k le e = ground arith
not_before (negsuc c) (pos n) k le e = ground arith
not_before (negsuc c) (negsuc n) k le e = ground arith

not_listed :
    (cursor id : ℤ) (r : PlaylistRow) (e : Option String)
    → leb_ℤ (neg_ℤ id) (neg_ℤ cursor) ≡ true
    → has_playlist_id id r ≡ true
    → has_no_error e && ltb_ℤ r.id cursor ≡ false
not_listed cursor id r e le same = let before = not_before cursor id r.id le same in ground arith

save_load-select :
    (o : Option Playlist) (message : String) (cursor id : ℤ) (rows : List PlaylistRow)
    → leb_ℤ (neg_ℤ id) (neg_ℤ cursor) ≡ true
    → select_by_seq key (is_listed (some cursor)) (save_playlist o message id rows)
      ≡ select_by_seq key (is_listed (some cursor)) rows
unfolding update_playlist_details update_playlist_with_error
save_load-select none message cursor id rows le =
    select-update_where (is_listed (some cursor)) (has_playlist_id id) _ rows
      (λ r e. (not_listed cursor id r r.error le e, refl))
save_load-select (some p) message cursor id rows le =
    select-update_where (is_listed (some cursor)) (has_playlist_id id) _ rows
      (λ r e. (not_listed cursor id r r.error le e, not_listed cursor id r none le e))

pub save_loads-select :
    (loads : String → PlaylistLoad) (cursor : ℤ) (page rows : List PlaylistRow)
    → AreUpTo (neg_ℤ cursor) page
    → select_by_seq key (is_listed (some cursor)) (save_loads loads page rows)
      ≡ select_by_seq key (is_listed (some cursor)) rows
unfolding save_loads
save_loads-select loads cursor [] rows h = refl
save_loads-select loads cursor (r ∷ rs) rows (le, h) =
    save_loads-select loads cursor rs (save_load (loads r.online_playlist_id) r.id rows) h
    ∙ save_load-select (loads r.online_playlist_id).playlist (loads r.online_playlist_id).err_msg
        cursor r.id rows le

pub max_seq-last :
    (r : PlaylistRow) (rs : List PlaylistRow)
    → IsAbove key (key r) rs
    → IsIncreasing key rs
    → max_seq key (key r) rs ≡ neg_ℤ (last_id r rs)
unfolding max_seq last_id
max_seq-last r [] a inc = refl
max_seq-last r (s ∷ ss) (lt, a) (b, inc) =
    let e : ltb_ℤ (key r) (key s) ≡ true = ground arith in rw (max_seq, e) (max_seq-last s ss b inc)
