-- ===== src/UnorderedMap/Laws.antt =====
-- What `find` gives after each change of a map whose keys are distinct, in whatever order it iterates.
use mini_pgw.Prelude.{
  ◌<◌, ◌≡◌, refl, Bool, true, [], ◌∷◌, none, some, arith, if◌then◌else◌, is_some, length,
}
use mini_pgw.Text.{Text, text_eq}
use mini_pgw.Text.Order.{text_eq_iff}
use mini_pgw.UnorderedMap.{Map, find, assign, erase, erase_if}

module _ {ℓ} {V : Type ℓ} where
  -- No key has two entries.
  abbrev pub Distinct : Map V → Type ℓ
  Distinct [] = Unit
  Distinct ((j, v) ∷ m) = (find j m ≡ none) × Distinct m

  pub find-erase :
      (i k : Text) (m : Map V)
      → Distinct m
      → find k (erase i m) ≡ (if text_eq i k then none else find k m)
  unfolding find erase
  find-erase i k [] d = ground arith
  find-erase i k ((j, v) ∷ m) d =
      ground (arith, text_eq_iff i k, text_eq_iff j i, text_eq_iff j k, find-erase i k m d.1)

  pub erase-Distinct : (i : Text) (m : Map V) → Distinct m → Distinct (erase i m)
  unfolding find erase
  erase-Distinct i [] d = tt
  erase-Distinct i ((j, v) ∷ m) d = ground (arith, find-erase i j m d.1, erase-Distinct i m d.1)

  pub length-erase :
      (i : Text) (m : Map V) → is_some (find i m) ≡ true → length (erase i m) < length m
  unfolding find erase
  length-erase i [] h = cc
  length-erase i ((j, v) ∷ m) h = ground (arith, length-erase i m)

  pub find-assign :
      (i k : Text) (v : V) (m : Map V)
      → is_some (find i m) ≡ true
      → find k (assign i v m) ≡ (if text_eq i k then some v else find k m)
  unfolding find assign
  find-assign i k v [] h = cc
  find-assign i k v ((j, w) ∷ m) h =
      ground (arith, text_eq_iff i k, text_eq_iff j i, text_eq_iff j k, find-assign i k v m)

  pub assign-Distinct :
      (i : Text) (v : V) (m : Map V)
      → is_some (find i m) ≡ true
      → Distinct m
      → Distinct (assign i v m)
  unfolding find assign
  assign-Distinct i v [] h d = tt
  assign-Distinct i v ((j, w) ∷ m) h d =
      ground (arith, text_eq_iff i j, text_eq_iff j i, find-assign i j v m, assign-Distinct i v m)

  pub find-erase_if :
      (p : V → Bool) (k : Text) (m : Map V)
      → Distinct m
      → find k (erase_if p m)
        ≡ elim (find k m) [ none ↦ none | some v ↦ if p v then none else some v ]
  unfolding find erase_if
  find-erase_if p k [] d = refl
  find-erase_if p k ((j, v) ∷ m) d = ground (arith, text_eq_iff j k, find-erase_if p k m d.1)

  pub erase_if-Distinct : (p : V → Bool) (m : Map V) → Distinct m → Distinct (erase_if p m)
  unfolding find erase_if
  erase_if-Distinct p [] d = tt
  erase_if-Distinct p ((j, v) ∷ m) d =
      ground (arith, find-erase_if p j m d.1, erase_if-Distinct p m d.1)
