-- ===== src/Eleven/Speakers.antt =====
-- The numbers of the speakers in an answer of the transcription service.
use Prim.Native.String.{String}
use text.Mathlib.Text.{◌==◌ as str_eq}
use text.Mathlib.TextEquality.{eq_iff}
use qarau.Common.{
  ◌↔◌, ℕ, suc, ◌≤◌, ◌<◌, ◌≡◌, refl, sym, ap, ◌∙◌, List, [], ◌∷◌, length, inl, inr, Bool-cases,
  arith, map, if-true,
}
use qarau.Common.Tables.{In}
use qarau.Common.Sorted.Parts.{keep}
use qarau.Words.{Word}
use qarau.Eleven.Request.{
  ElevenWord, speaker_index, add_speaker, is_word, pack, parse_eleven, speakers_of,
}

speaker_index-add_self :
    (id : String) (ss : List String)
    → (speaker_index id (add_speaker id ss) ≡ speaker_index id ss)
      × (speaker_index id ss < length (add_speaker id ss))
unfolding speaker_index add_speaker
speaker_index-add_self id [] =
    (if-true (str_eq id id) 0 1 (ground (arith, eq_iff id id)), omega arith)
speaker_index-add_self id (s ∷ ss) =
    let (e, lt) = speaker_index-add_self id ss in
    elim (Bool-cases (str_eq s id)) [
      | inl t ↦ rw (t, t) (refl, omega arith)
      | inr f ↦ rw (f, f) (ap suc e, omega (arith, lt))
    ]

length-add_speaker : (id : String) (ss : List String) → length ss ≤ length (add_speaker id ss)
unfolding add_speaker
length-add_speaker id [] = omega arith
length-add_speaker id (s ∷ ss) = elim (Bool-cases (str_eq s id)) [
  | inl t ↦ rw t (omega arith)
  | inr f ↦ rw f (omega (arith, length-add_speaker id ss))
]

-- Adding a speaker keeps the numbers of the others.
speaker_index-add :
    (id other : String) (ss : List String)
    → speaker_index id ss < length ss
    → speaker_index id (add_speaker other ss) ≡ speaker_index id ss
unfolding speaker_index add_speaker
speaker_index-add id other [] lt = absurd (omega arith)
speaker_index-add id other (s ∷ ss) lt = elim (Bool-cases (str_eq s other)) [
  | inl t ↦ rw t refl
  | inr f ↦ elim (Bool-cases (str_eq s id)) [
    | inl u ↦ rw (f, u) refl
    | inr u ↦ rw (f, u) (ap suc (speaker_index-add id other ss (ground arith)))
  ]
]

speaker_index-injective :
    (a b : String) (ss : List String)
    → speaker_index a ss < length ss
    → speaker_index a ss ≡ speaker_index b ss
    → a ≡ b
unfolding speaker_index
speaker_index-injective a b [] lt e = absurd (omega arith)
speaker_index-injective a b (s ∷ ss) lt e = elim (Bool-cases (str_eq s a)) [
  | inl t ↦ elim (Bool-cases (str_eq s b)) [
    | inl u ↦ sym ((eq_iff s a).0 t) ∙ (eq_iff s b).0 u
    | inr u ↦ absurd (ground arith)
  ]
  | inr t ↦ elim (Bool-cases (str_eq s b)) [
    | inl u ↦ absurd (ground arith)
    | inr u ↦ speaker_index-injective a b ss (ground arith) (ground arith)
  ]
]

module _ {F : Type 0} (millis percent : F → ℕ) where
  -- A numbered speaker stays numbered as it is.
  speaker_index-speakers_of :
      (id : String) (ss : List String) (ws : List (ElevenWord F))
      → speaker_index id ss < length ss
      → (speaker_index id (speakers_of millis percent ss ws) ≡ speaker_index id ss)
        × (length ss ≤ length (speakers_of millis percent ss ws))
  unfolding speakers_of
  speaker_index-speakers_of id ss [] lt = (refl, omega arith)
  speaker_index-speakers_of id ss (w ∷ ws) lt = elim (Bool-cases (is_word millis percent w)) [
    | inr f ↦ rw f (speaker_index-speakers_of id ss ws lt)
    | inl t ↦
        let e = speaker_index-add id w.speaker_id ss lt in
        let le = length-add_speaker w.speaker_id ss in
        let (q, l) =
          speaker_index-speakers_of id (add_speaker w.speaker_id ss) ws (omega (arith, e)) in
        rw t (q ∙ e, omega (arith, l))
  ]

  abbrev pub numbered : List String → ElevenWord F → Word
  numbered ss w = pack millis percent (speaker_index w.speaker_id ss) w

  abbrev pub AreNumbered : List String → List (ElevenWord F) → Type 0
  AreNumbered ss [] = Unit {0}
  AreNumbered ss (w ∷ ws) = (speaker_index w.speaker_id ss < length ss) × AreNumbered ss ws

  parse_eleven-numbered :
      (ss : List String) (ws : List (ElevenWord F))
      → (parse_eleven millis percent ss ws
          ≡ map (numbered (speakers_of millis percent ss ws)) (keep (is_word millis percent) ws))
        × AreNumbered (speakers_of millis percent ss ws) (keep (is_word millis percent) ws)
  unfolding parse_eleven speakers_of keep
  parse_eleven-numbered ss [] = (refl, tt)
  parse_eleven-numbered ss (w ∷ ws) = elim (Bool-cases (is_word millis percent w)) [
    | inr f ↦ rw f (parse_eleven-numbered ss ws)
    | inl t ↦
        let more = add_speaker w.speaker_id ss in
        let (own, lt) = speaker_index-add_self w.speaker_id ss in
        let (q, l) = speaker_index-speakers_of w.speaker_id more ws (omega (arith, own)) in
        let (e, n) = parse_eleven-numbered more ws in
        let same : speaker_index w.speaker_id ss
            ≡ speaker_index w.speaker_id (speakers_of millis percent more ws) =
          sym (q ∙ own) in
        rw t (rw (e, same) refl, (omega (arith, q, own, l, lt), n))
  ]

  AreNumbered-In :
      (ss : List String) (ws : List (ElevenWord F)) (w : ElevenWord F)
      → AreNumbered ss ws
      → In w ws
      → speaker_index w.speaker_id ss < length ss
  AreNumbered-In ss [] w n m = absurd m
  AreNumbered-In ss (v ∷ vs) w (lt, n) (inl e) =
      omega (arith, ap (λ x. speaker_index (ElevenWord.speaker_id x) ss) e)
  AreNumbered-In ss (v ∷ vs) w (lt, n) (inr m) = AreNumbered-In ss vs w n m

  -- parseEleven keeps the words of the answer, and of them only, in their order, and numbers their
  -- speakers by a table in which two words have the same number exactly if they have the same
  -- speaker.
  pub parse_eleven-speakers :
      (ws : List (ElevenWord F))
      → (ss : List String) × (parse_eleven millis percent [] ws
          ≡ map (numbered ss) (keep (is_word millis percent) ws))
        × ((v w : ElevenWord F)
            → In v (keep (is_word millis percent) ws)
            → In w (keep (is_word millis percent) ws)
            → (speaker_index v.speaker_id ss ≡ speaker_index w.speaker_id ss)
              ↔ (v.speaker_id ≡ w.speaker_id))
  parse_eleven-speakers ws =
      let ss = speakers_of millis percent [] ws in
      let (e, n) = parse_eleven-numbered [] ws in
      (
        ss,
        e,
        λ v w a b. (
          speaker_index-injective v.speaker_id w.speaker_id ss
              (AreNumbered-In ss (keep (is_word millis percent) ws) v n a),
          λ q. ap (λ id. speaker_index id ss) q,
        ),
      )
