-- ===== src/Playlists/Ordered.antt =====
-- The rows before a cursor are those behind the page that ends there.
use qarau.Common.{
  ℕ, zero, suc, ◌≡◌, refl, sym, ap, ◌∙◌, subst, Bool, true, false, ◌&&◌, Option, none, some, List,
  [], ◌∷◌, inl, inr, Bool-cases, arith, take, drop,
}
use qarau.Common.Int.{ℤ, pos, negsuc, leb_ℤ, ltb_ℤ}
use qarau.Common.Sorted.{select_by_seq, IsAbove, IsIncreasing}
use qarau.Common.Sorted.Parts.{
  max_seq, max_seq-bound, keep, keep-congr, keep-keep, keep-page, select_by_seq-from,
}
use qarau.Playlists.{PlaylistRow, key, neg_ℤ, is_listed, last_id}
use qarau.Playlists.Client.{start_key, is_before-start_key, select-congr, AreUpTo, max_seq-last}

abbrev pub listed : List PlaylistRow → List PlaylistRow
listed rows = select_by_seq key (is_listed none) rows

pub IsAbove-take :
    (m : ℤ) (n : ℕ) (rs : List PlaylistRow) → IsAbove key m rs → IsAbove key m (take n rs)
IsAbove-take m zero rs h = tt
IsAbove-take m (suc n) [] h = tt
IsAbove-take m (suc n) (r ∷ rs) (a, h) = (a, IsAbove-take m n rs h)

pub IsIncreasing-take :
    (n : ℕ) (rs : List PlaylistRow) → IsIncreasing key rs → IsIncreasing key (take n rs)
IsIncreasing-take zero rs h = tt
IsIncreasing-take (suc n) [] h = tt
IsIncreasing-take (suc n) (r ∷ rs) (a, h) = (IsAbove-take (key r) n rs a, IsIncreasing-take n rs h)

pub IsIncreasing-drop :
    (n : ℕ) (rs : List PlaylistRow) → IsIncreasing key rs → IsIncreasing key (drop n rs)
IsIncreasing-drop zero rs h = h
IsIncreasing-drop (suc n) [] h = tt
IsIncreasing-drop (suc n) (r ∷ rs) (a, h) = IsIncreasing-drop n rs h

leb_after : (m k v : ℤ) → ltb_ℤ m k ≡ false → leb_ℤ m v ≡ true → leb_ℤ k v ≡ true
leb_after m k v f t = ground arith

leb_trans :
    (d r n s x : ℤ)
    → leb_ℤ d r ≡ true
    → leb_ℤ r n ≡ true
    → leb_ℤ s x ≡ ltb_ℤ n x
    → leb_ℤ s x ≡ true
    → leb_ℤ d x ≡ true
leb_trans d r n s x a b q h = ground arith

pub AreUpTo-max_seq : (m : ℤ) (rs : List PlaylistRow) → AreUpTo (max_seq key m rs) rs
unfolding max_seq
AreUpTo-max_seq m [] = tt
AreUpTo-max_seq m (r ∷ rs) = elim (Bool-cases (ltb_ℤ m (key r))) [
  | inl e ↦
      let q : max_seq key (key r) rs ≡ max_seq key m (r ∷ rs) = rw (max_seq, e) refl in
      subst (λ v. AreUpTo v (r ∷ rs)) q (max_seq-bound key (key r) rs, AreUpTo-max_seq (key r) rs)
  | inr e ↦
      let q : max_seq key m rs ≡ max_seq key m (r ∷ rs) = rw (max_seq, e) refl in
      let b = max_seq-bound key m rs in
      subst (λ v. AreUpTo v (r ∷ rs)) q
        (leb_after m (key r) (max_seq key m rs) e b, AreUpTo-max_seq m rs)
]

pub AreUpTo-keep :
    (p : PlaylistRow → Bool) (m : ℤ) (rs : List PlaylistRow) → AreUpTo m rs → AreUpTo m (keep p rs)
unfolding keep
AreUpTo-keep p m [] h = tt
AreUpTo-keep p m (r ∷ rs) (a, h) = elim (Bool-cases (p r)) [
  | inl e ↦ rw e (a, AreUpTo-keep p m rs h)
  | inr e ↦ rw e (AreUpTo-keep p m rs h)
]

head-from :
    (start : ℤ) (rows : List PlaylistRow) (r : PlaylistRow) (rs : List PlaylistRow)
    → keep (λ x. leb_ℤ start (key x)) rows ≡ r ∷ rs
    → leb_ℤ start (key r) ≡ true
unfolding keep
head-from start [] r rs e = absurd (ground arith)
head-from start (x ∷ xs) r rs e = elim (Bool-cases (leb_ℤ start (key x))) [
  | inl t ↦ ground arith
  | inr f ↦ head-from start xs r rs (ground arith)
]

start_key-after : (c b : ℤ) → leb_ℤ (start_key c) b ≡ ltb_ℤ (neg_ℤ c) b
start_key-after (pos c) (pos n) = ground arith
start_key-after (pos c) (negsuc n) = ground arith
start_key-after (negsuc c) (pos n) = ground arith
start_key-after (negsuc c) (negsuc n) = ground arith

-- The rows before a cursor, as a part of the ordered rows.
before-keep :
    (c : ℤ) (rows : List PlaylistRow)
    → select_by_seq key (is_listed (some c)) rows
      ≡ keep (λ x. leb_ℤ (start_key c) (key x)) (listed rows)
before-keep c rows =
    select-congr (is_listed (some c)) (λ x. is_listed none x && leb_ℤ (start_key c) (key x)) rows
      (λ x. let e = is_before-start_key c x.id in ground arith)
    ∙ select_by_seq-from key (is_listed none) (start_key c) rows

pub before-rest :
    (cursor : Option ℤ) (c : ℤ) (rows : List PlaylistRow) (r : PlaylistRow) (rs : List PlaylistRow)
    → select_by_seq key (is_listed cursor) rows ≡ r ∷ rs
    → leb_ℤ (key r) (neg_ℤ c) ≡ true
    → select_by_seq key (is_listed (some c)) rows ≡ keep (λ x. leb_ℤ (start_key c) (key x)) (r ∷ rs)
before-rest none c rows r rs e le =
    before-keep c rows ∙ ap (keep (λ x. leb_ℤ (start_key c) (key x))) e
before-rest (some d) c rows r rs e le =
    let all = sym (before-keep d rows) ∙ e in
    let from = head-from (start_key d) (listed rows) r rs all in
    before-keep c rows
    ∙ sym (
        keep-keep (λ x. leb_ℤ (start_key d) (key x)) (λ x. leb_ℤ (start_key c) (key x))
          (listed rows)
          (λ x h.
            leb_trans (start_key d) (key r) (neg_ℤ c) (start_key c) (key x) from le
              (start_key-after c (key x)) h))
    ∙ ap (keep (λ x. leb_ℤ (start_key c) (key x))) all

-- The rows behind a page.
pub keep-behind :
    (k : ℕ) (r : PlaylistRow) (rs : List PlaylistRow)
    → IsIncreasing key (r ∷ rs)
    → keep (λ x. leb_ℤ (start_key (last_id r (take k rs))) (key x)) (r ∷ rs) ≡ drop k rs
unfolding keep
keep-behind k r rs (above, inc) =
    let last =
      max_seq-last r (take k rs) (IsAbove-take (key r) k rs above) (IsIncreasing-take k rs inc) in
    let bound = max_seq-bound key (key r) (take k rs) in
    let out : ltb_ℤ (max_seq key (key r) (take k rs)) (key r) ≡ false = ground arith in
    keep-congr (λ x. leb_ℤ (start_key (last_id r (take k rs))) (key x))
      (λ x. ltb_ℤ (max_seq key (key r) (take k rs)) (key x)) (r ∷ rs)
      (λ x. start_key-after (last_id r (take k rs)) (key x) ∙ ap (λ m. ltb_ℤ m (key x)) (sym last))
    ∙ rw out (keep-page key k (key r) rs above inc)
