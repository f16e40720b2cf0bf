-- ===== src/Service/Replaced.antt =====
-- Rows of one transcription in the tables of words and sentences, and the quota of a day.
use qarau.Common.{
  ℕ, suc, ◌==◌, ==_self, ◌≡◌, refl, ap, Bool, not, some, List, [], ◌∷◌, ◌++◌, Bool-cases, inl, inr,
}
use qarau.Common.Int.{ℤ}
use qarau.Common.Result.{Result, ok, err}
use qarau.Words.{Word}
use qarau.Store.{Store, Tx, ◌>>=◌, WordRow, SentenceRow, delete_where, get_asr_quota, set_quota}
use qarau.Transcript.{to_word_row, to_word_rows}

-- What holds of the value and the store that a transaction leaves.
abbrev pub Returns : {A : Type 0} → Result (A × Store) → (A → Store → Type 0) → Type 0
Returns (ok (a, t)) P = P a t
Returns (err e) P = Unit {0}

pub Returns-bind :
    {A B : Type 0} (m : Tx A) (f : A → Tx B) (P : A → Store → Type 0) (Q : B → Store → Type 0)
    (s : Store)
    → Returns (m s) P
    → ((a : A) (t : Store) → P a t → Returns (f a t) Q)
    → Returns ((m >>= f) s) Q
Returns-bind {A} m f P Q s h next = go (m s) h
  where
    go :
        (r : Result (A × Store))
        → Returns r P
        → Returns (elim r [ err e ↦ err e | ok (a, t) ↦ f a t ]) Q
    go (ok (a, t)) l = next a t l
    go (err e) l = tt

-- The rows of one transcription, and those of the others.
abbrev pub is_word_of : ℕ → WordRow → Bool
is_word_of id w = w.transcription_id == id

abbrev pub is_sentence_of : ℕ → SentenceRow → Bool
is_sentence_of id t = t.transcription_id == id

module _ {A : Type 0} (p : A → Bool) where
  pub delete_where-append :
      (xs ys : List A) → delete_where p (xs ++ ys) ≡ delete_where p xs ++ delete_where p ys
  unfolding delete_where
  delete_where-append [] ys = refl
  delete_where-append (x ∷ xs) ys = elim (Bool-cases (p x)) [
    | inl e ↦ rw e (delete_where-append xs ys)
    | inr e ↦ rw e (ap (λ q. x ∷ q) (delete_where-append xs ys))
  ]

  pub delete_where_again : (xs : List A) → delete_where p (delete_where p xs) ≡ delete_where p xs
  unfolding delete_where
  delete_where_again [] = refl
  delete_where_again (x ∷ xs) = elim (Bool-cases (p x)) [
    | inl e ↦ rw e (delete_where_again xs)
    | inr e ↦ rw (e, e) (ap (λ q. x ∷ q) (delete_where_again xs))
  ]

  pub delete_where_rest : (xs : List A) → delete_where (λ x. not (p x)) (delete_where p xs) ≡ []
  unfolding delete_where
  delete_where_rest [] = refl
  delete_where_rest (x ∷ xs) = elim (Bool-cases (p x)) [
    | inl e ↦ rw e (delete_where_rest xs)
    | inr e ↦ rw (e, e) (delete_where_rest xs)
  ]

pub own_rows :
    (id i : ℕ) (ws : List Word)
    → (delete_where (is_word_of id) (to_word_rows id i ws) ≡ [])
      × (delete_where (λ w. not (is_word_of id w)) (to_word_rows id i ws) ≡ to_word_rows id i ws)
unfolding delete_where to_word_rows
own_rows id i [] = (refl, refl)
own_rows id i (w ∷ ws) =
    let (gone, kept) = own_rows id (suc i) ws in
    rw (==_self id) (gone, ap (λ q. to_word_row id i w ∷ q) kept)

pub set_quota-get_asr_quota :
    (day : ℕ) (v : ℤ) (q : List (ℕ × ℤ)) → get_asr_quota day (set_quota day v q) ≡ some v
unfolding get_asr_quota set_quota
set_quota-get_asr_quota day v [] = rw (==_self day) refl
set_quota-get_asr_quota day v ((d, used) ∷ rest) = elim (Bool-cases (d == day)) [
  | inl e ↦ rw (e, ==_self day) refl
  | inr e ↦ rw (e, e) (set_quota-get_asr_quota day v rest)
]
