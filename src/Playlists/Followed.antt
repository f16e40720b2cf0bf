-- ===== src/Playlists/Followed.antt =====
-- A client that follows the cursor gets every suggested playlist once.
use Prim.Native.String.{String}
use qarau.Common.{
  map, ℕ, zero, suc, ◌+◌, ◌<◌, ◌≡◌, refl, sym, ap, ◌∙◌, subst, true, false, Option, none, some,
  List, [], ◌∷◌, ◌++◌, inl, inr, Bool-cases, ltb, arith, take, drop, length, if-true, if-false,
  take-all, length-take, length-drop, take-append-drop,
}
use qarau.Common.Int.{ℤ, pos, ltb_ℤ, int32}
use qarau.Common.Result.{Result, ok}
use qarau.Common.Sorted.{select_by_seq, select_by_seq-IsIncreasing, IsIncreasing, IsKeyed}
use qarau.Common.Sorted.Parts.{max_seq-bound, keep}
use qarau.Playlists.{
  cut_page, stored, add_loaded, PlaylistRow, PlaylistLoad, Playlist, key, neg_ℤ, is_listed,
  save_loads, get_suggested_playlists, last_id, results, is_untitled, no_loads, answer, answer_page,
  answer_rows, page_of, loads_for, list_playlists,
}
use qarau.Playlists.Client.{
  append_playlists, continue_from, follow, AreUpTo, save_loads-select, max_seq-last,
}
use qarau.Playlists.Ordered.{
  listed, IsAbove-take, IsIncreasing-take, IsIncreasing-drop, AreUpTo-max_seq, AreUpTo-keep,
  before-rest, keep-behind,
}

take-take : (k : ℕ) (rs : List PlaylistRow) → take k (take (suc k) rs) ≡ take k rs
take-take zero rs = refl
take-take (suc k) [] = refl
take-take (suc k) (r ∷ rs) = ap (◌∷◌ r) (take-take k rs)

page_AreUpTo :
    (k : ℕ) (r : PlaylistRow) (rs : List PlaylistRow)
    → IsIncreasing key (r ∷ rs)
    → AreUpTo (neg_ℤ (last_id r (take k rs))) (r ∷ take k rs)
page_AreUpTo k r rs (above, inc) =
    subst (λ m. AreUpTo m (r ∷ take k rs))
      (max_seq-last r (take k rs) (IsAbove-take (key r) k rs above) (IsIncreasing-take k rs inc))
      (max_seq-bound key (key r) (take k rs), AreUpTo-max_seq (key r) (take k rs))

results-titled :
    (loads : String → PlaylistLoad) (page : List PlaylistRow)
    → keep is_untitled page ≡ []
    → results no_loads page ≡ results loads page
unfolding results keep
results-titled loads [] e = refl
results-titled loads (r ∷ rs) e = elim (Bool-cases (is_untitled r)) [
  | inl t ↦ absurd (ground arith)
  | inr f ↦ rw f (ap (◌∷◌ (stored r)) (results-titled loads rs (ground arith)))
]

results-append :
    (loads : String → PlaylistLoad) (ps qs : List PlaylistRow)
    → results loads (ps ++ qs) ≡ results loads ps ++ results loads qs
unfolding results
results-append loads [] qs = refl
results-append loads (r ∷ rs) qs = elim (Bool-cases (is_untitled r)) [
  | inl t ↦
      rw (t, results-append loads rs qs)
        (added (loads r.online_playlist_id).playlist (results loads rs))
  | inr f ↦ rw (f, results-append loads rs qs) refl
]
  where
    added :
        (o : Option Playlist) (ps : List Playlist)
        → add_loaded o (ps ++ results loads qs) ≡ add_loaded o ps ++ results loads qs
    added none ps = refl
    added (some p) ps = refl

module _ (loads : String → PlaylistLoad) (api : List String → Result (String → PlaylistLoad))
    (good : (ids : List String) → api ids ≡ ok loads) where
  answer-loads :
      (page : List PlaylistRow) (next : Option ℤ) (rows : List PlaylistRow)
      → answer api page next (loads_for api (keep is_untitled page)) rows ≡ (
        ok (record { playlists = results loads page; next_cursor = next }),
        save_loads loads (keep is_untitled page) rows,
      )
  unfolding save_loads
  answer-loads page next rows = go (keep is_untitled page) refl
    where
      go :
          (missing : List PlaylistRow)
          → keep is_untitled page ≡ missing
          → answer api page next (loads_for api missing) rows ≡ (
            ok (record { playlists = results loads page; next_cursor = next }),
            save_loads loads (keep is_untitled page) rows,
          )
      go [] e = rw (e, results-titled loads page e) refl
      go (m ∷ ms) e = rw (good (map PlaylistRow.online_playlist_id (m ∷ ms))) refl

  module _ (k : ℕ) (small : suc k < 2147483647) where
    limit : int32 (suc k + 1) ≡ pos (suc (suc k))
    unfolding int32
    limit = ground arith

    list-rest :
        (cursor : Option ℤ) (rows rest : List PlaylistRow)
        → select_by_seq key (is_listed cursor) rows ≡ rest
        → list_playlists cursor (int32 (suc k + 1)) rows ≡ ok (take (suc (suc k)) rest)
    unfolding list_playlists
    list-rest cursor rows rest e =
        ap (λ l. list_playlists cursor l rows) limit
        ∙ if-false (ltb_ℤ (pos (suc (suc k))) (pos 0)) _
            (ok (take (suc (suc k)) (select_by_seq key (is_listed cursor) rows))) (ground arith)
        ∙ ap (λ q. ok (take (suc (suc k)) q)) e

    -- What a page gives and leaves, from the rows it is cut from.
    page-answer :
        (cursor : Option ℤ) (rows rest page : List PlaylistRow) (next : Option ℤ)
        → select_by_seq key (is_listed cursor) rows ≡ rest
        → page_of (suc k) (take (suc (suc k)) rest) ≡ ok (page, next)
        → get_suggested_playlists api cursor (suc k) rows ≡ (
          ok (record { playlists = results loads page; next_cursor = next }),
          save_loads loads (keep is_untitled page) rows,
        )
    unfolding get_suggested_playlists
    page-answer cursor rows rest page next e q =
        ap (λ r. answer_rows api (suc k) r rows) (list-rest cursor rows rest e)
        ∙ ap (λ p. answer_page api p rows) q
        ∙ answer-loads page next rows

    short-page :
        (rest : List PlaylistRow)
        → ltb (suc k) (length rest) ≡ false
        → page_of (suc k) (take (suc (suc k)) rest) ≡ ok (rest, none)
    unfolding page_of
    short-page rest short =
        ap (page_of (suc k)) (take-all (suc (suc k)) rest (ground arith))
        ∙ if-false (ltb (suc k) (length rest)) (cut_page (take (suc k) rest)) (ok (rest, none))
            short

    long-page :
        (r : PlaylistRow) (rs : List PlaylistRow)
        → ltb (suc k) (length (r ∷ rs)) ≡ true
        → page_of (suc k) (take (suc (suc k)) (r ∷ rs))
          ≡ ok (r ∷ take k rs, some (last_id r (take k rs)))
    unfolding page_of
    long-page r rs long =
        if-true (ltb (suc k) (length (r ∷ take (suc k) rs)))
          (cut_page (r ∷ take k (take (suc k) rs))) (ok (r ∷ take (suc k) rs, none))
          (ground (arith, length-take (suc k) rs))
        ∙ ap (λ q. cut_page (r ∷ q)) (take-take k rs)

    serve-last :
        (n : ℕ) (cursor : Option ℤ) (rows rest : List PlaylistRow)
        → select_by_seq key (is_listed cursor) rows ≡ rest
        → ltb (suc k) (length rest) ≡ false
        → follow api (suc n) cursor (suc k) rows ≡ some (results loads rest)
    unfolding follow
    serve-last n cursor rows rest e short =
        ap (λ a. continue_from a (λ next left. follow api n (some next) (suc k) left))
          (page-answer cursor rows rest rest none e (short-page rest short))

    serve :
        (n : ℕ) (cursor : Option ℤ) (rows rest : List PlaylistRow)
        → select_by_seq key (is_listed cursor) rows ≡ rest
        → IsIncreasing key rest
        → length rest < n
        → follow api n cursor (suc k) rows ≡ some (results loads rest)
    unfolding follow
    serve zero cursor rows rest e inc lt = absurd (omega arith)
    serve (suc n) cursor rows [] e inc lt = serve-last n cursor rows [] e (ground arith)
    serve (suc n) cursor rows (r ∷ rs) e inc lt =
        elim (Bool-cases (ltb (suc k) (length (r ∷ rs)))) [
          | inr short ↦ serve-last n cursor rows (r ∷ rs) e short
          | inl long ↦
              let c = last_id r (take k rs) in
              let page = r ∷ take k rs in
              let left = save_loads loads (keep is_untitled page) rows in
              let upto = page_AreUpTo k r rs inc in
              let behind =
                save_loads-select loads c (keep is_untitled page) rows
                  (AreUpTo-keep is_untitled (neg_ℤ c) page upto)
                ∙ before-rest cursor c rows r rs e upto.0
                ∙ keep-behind k r rs inc in
              ap (λ a. continue_from a (λ next later. follow api n (some next) (suc k) later))
                (page-answer cursor rows (r ∷ rs) page (some c) e (long-page r rs long))
              ∙ ap (append_playlists (results loads page)) (
                  serve n (some c) left (drop k rs) behind (IsIncreasing-drop k rs (inc.1))
                    (omega (arith, length-drop k rs)))
              ∙ ap some (
                  sym (results-append loads page (drop k rs))
                  ∙ ap (λ q. results loads (r ∷ q)) (take-append-drop k rs))
        ]

-- A client that asks for suggested playlists without a cursor and then with each answer's cursor,
-- until there is none, gets there in at most one page more than there are playlists without an
-- error, and gets each of those once, the newest first: a stored one as it is, one without a title
-- as YouTube describes it, or not at all if YouTube does not know it. This holds although each
-- page writes what YouTube says into the table. The size of a page is positive and below the
-- largest int32, the ids differ, and YouTube answers every request, each time the same.
pub follow-results :
    (loads : String → PlaylistLoad) (api : List String → Result (String → PlaylistLoad)) (size : ℕ)
    (rows : List PlaylistRow)
    → ((ids : List String) → api ids ≡ ok loads)
    → 0 < size
    → size < 2147483647
    → IsKeyed key (is_listed none) rows
    → follow api (suc (length (listed rows))) none size rows ≡ some (results loads (listed rows))
follow-results loads api zero rows good size small keyed = absurd (omega arith)
follow-results loads api (suc k) rows good size small keyed =
    serve loads api good k small (suc (length (listed rows))) none rows (listed rows) refl
      (select_by_seq-IsIncreasing key (is_listed none) rows keyed) (omega arith)
