-- ===== src/Competition/Catalog/Streams.antt =====
-- `Match.StreamFor`: which broadcast a chat is shown. `strings.EqualFold`, the test on two
-- languages, is a parameter; the theorems hold for whatever it answers.
use mathlib.Core.List.{Mem, mem-cons_self, mem-cons_of_mem}
use cs2_predictor.Base.{
  String, Bool, List, Option, find_first, ◌&&◌, ◌≡◌, ◌∷◌, some, none, ◌||◌, arith, true,
  if◌then◌else◌, [], not, Bool-cases, ◌⊎◌, refl, Option-cases, inl, inr, subst, or_else,
}
use cs2_predictor.Competition.Catalog.{Match, Stream, LocaleCode, language_of, en}

module _ (equal_fold : String → String → Bool) where
  -- The loop of `officialStream`, with the official stream met so far.
  official_from : String → List Stream → Option Stream → Option Stream
  official_from lang [] official = official
  official_from lang (s ∷ rest) official =
      let skip = official_from lang rest official in
      let later = official_from lang rest (some s) in
      if not (equal_fold s.language lang)
      then skip
      else if s.main
      then some s
      else elim official [ none ↦ if s.official then later else skip | some o ↦ skip ]

  unfoldable pub official_stream : Match → String → Option Stream
  unfolding official_from
  official_stream m lang = official_from lang m.streams none

  unfoldable pub stream_for : Match → LocaleCode → Option Stream
  stream_for m preferred =
      or_else (official_stream m (language_of preferred)) (official_stream m (language_of en))

  -- A main broadcast in the language, and the broadcasts in it that may be linked at all.
  abbrev pub is_main_in : String → Stream → Bool
  is_main_in lang s = equal_fold s.language lang && s.main

  abbrev pub qualifies_in : String → Stream → Bool
  qualifies_in lang s = equal_fold s.language lang && (s.main || s.official)

  -- The first main broadcast; with none, the one met before, or else the first that qualifies.
  abbrev pub choose : String → List Stream → Option Stream → Option Stream
  choose lang xs official = elim (find_first (is_main_in lang) xs) [
    | some s ↦ some s
    | none ↦ elim official [ some o ↦ some o | none ↦ find_first (qualifies_in lang) xs ]
  ]

  official_from-choose :
      (lang : String) (xs : List Stream) (official : Option Stream)
      → official_from lang xs official ≡ choose lang xs official
  unfolding official_from
  official_from-choose lang [] none = refl
  official_from-choose lang [] (some o) = refl
  official_from-choose lang (s ∷ rest) none =
      ground (arith, official_from-choose lang rest none, official_from-choose lang rest (some s))
  official_from-choose lang (s ∷ rest) (some o) =
      ground (arith, official_from-choose lang rest (some o))

  pub official_stream-choose :
      (m : Match) (lang : String) → official_stream m lang ≡ choose lang m.streams none
  unfolding official_stream
  official_stream-choose m lang = official_from-choose lang m.streams none

  -- The preferred language first and English second, each by one search for a main broadcast and
  -- one for an official one.
  pub stream_for-choose :
      (m : Match) (preferred : LocaleCode)
      → stream_for m preferred
        ≡ or_else
            (choose (language_of preferred) m.streams none)
            (choose (language_of en) m.streams none)
  unfolding stream_for
  stream_for-choose m preferred = λ i.
      or_else (official_stream-choose m (language_of preferred) i)
        (official_stream-choose m (language_of en) i)

  find_first_sound :
      (p : Stream → Bool) (xs : List Stream) (s : Stream)
      → find_first p xs ≡ some s
      → (p s ≡ true) × Mem s xs
  find_first_sound p [] s e = cc
  find_first_sound p (x ∷ xs) s e = elim (Bool-cases (p x)) [
    | inl hit ↦
        let same : x ≡ s = ground arith in
        (rw (← same) hit, subst (λ y. Mem y (x ∷ xs)) same mem-cons_self)
    | inr miss ↦ let (q, m) = find_first_sound p xs s (ground arith) in (q, mem-cons_of_mem x m)
  ]

  choose_sound :
      (lang : String) (xs : List Stream) (s : Stream)
      → choose lang xs none ≡ some s
      → (qualifies_in lang s ≡ true) × Mem s xs
  choose_sound lang xs s e = elim (Option-cases (find_first (is_main_in lang) xs)) [
    | inl out ↦ find_first_sound (qualifies_in lang) xs s (ground arith)
    | inr (t, hit) ↦
        let (q, m) = find_first_sound (is_main_in lang) xs s (ground arith) in (ground arith, m)
  ]

  -- A broadcast that is shown is one of the match's, may be linked, and is in the preferred
  -- language or in English.
  pub stream_for_sound :
      (m : Match) (preferred : LocaleCode) (s : Stream)
      → stream_for m preferred ≡ some s
      → Mem s m.streams
        × ((qualifies_in (language_of preferred) s ≡ true)
            ⊎ (qualifies_in (language_of en) s ≡ true))
  stream_for_sound m preferred s e =
      elim (Option-cases (choose (language_of preferred) m.streams none)) [
        | inl out ↦
            let (q, i) =
              choose_sound (language_of en) m.streams s
                (ground (arith, stream_for-choose m preferred)) in
            (i, inr q)
        | inr (t, hit) ↦
            let (q, i) =
              choose_sound (language_of preferred) m.streams s
                (ground (arith, stream_for-choose m preferred)) in
            (i, inl q)
      ]
