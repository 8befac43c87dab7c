-- ===== src/UnorderedMap/Order.antt =====
-- The order of iteration, and what a map holds.
use mathlib.Core.List.{Perm, Permᴰ}
use mathlib.Core.Logic.{∥∥₁_elim}
use mathlib.Core.HLevel.{×_prop, Π_prop}
use mathlib.Core.List.Perm
use mathlib.Core.Option
use mini_pgw.Prelude.{
  ◌≡◌, refl, ◌∙◌, [], ◌∷◌, none, some, arith, if◌then◌else◌, Option-cases, inl, inr,
}
use mini_pgw.Text.{Text, text_eq}
use mini_pgw.Text.Order.{text_eq_iff}
use mini_pgw.UnorderedMap.{Map, Layout, find, insert_or_assign}
use mini_pgw.UnorderedMap.Laws.{Distinct, find-assign, assign-Distinct}

module _ {ℓ} {V : Type ℓ} where
  -- `b` holds what `a` holds, and keeps its keys distinct.
  abbrev SameMap : Map V → Map V → Type ℓ
  SameMap a b = Distinct a → Distinct b × ((k : Text) → find k b ≡ find k a)

  Permᴰ-SameMap : {a b : Map V} → Permᴰ a b → SameMap a b
  unfolding find
  Permᴰ-SameMap Permᴰ.nil d = (d, λ k. refl)
  Permᴰ-SameMap (Permᴰ.cons {a = (j, v)} {b = (i, w)} {l₁ = l} {l₂ = m} e p) d =
      let (dm, same) = Permᴰ-SameMap p d.1 in (ground (arith, same j), λ k. ground (arith, same k))
  Permᴰ-SameMap (Permᴰ.swap {a = (j, v)} {b = (i, w)} {a' = (j', v')} {b' = (i', w')} {l = l} e f)
        d =
      (
        ground (arith, text_eq_iff j i, text_eq_iff i j),
        λ k. ground (arith, text_eq_iff j k, text_eq_iff i k, text_eq_iff j i, text_eq_iff i j),
      )
  Permᴰ-SameMap (Permᴰ.trans p q) d =
      let (d', same) = Permᴰ-SameMap p d in
      let (d'', same') = Permᴰ-SameMap q d' in (d'', λ k. same' k ∙ same k)

  module _ (V-set : IsSet V) where
    Distinct-prop : (m : Map V) → IsProp (Distinct m)
    Distinct-prop [] = hlevel
    Distinct-prop ((j, v) ∷ m) = ×_prop (Option.Path-none_prop (find j m)) (Distinct-prop m)

    SameMap-prop : (a b : Map V) → IsProp (SameMap a b)
    SameMap-prop a b =
        Π_prop
          (λ _. ×_prop (Distinct-prop b) (Π_prop (λ k. Option.is_set V-set (find k b) (find k a))))

    perm-SameMap : {a b : Map V} → Perm a b → SameMap a b
    perm-SameMap {a} {b} p = ∥∥₁_elim p (SameMap-prop a b) Permᴰ-SameMap

    module _ (layout : Layout V) (i : Text) (v : V) (m : Map V) (d : Distinct m) where
      inserted : find i m ≡ none → SameMap ((i, v) ∷ m) (layout.arrange ((i, v) ∷ m))
      inserted _ = perm-SameMap (Perm.symm (layout.arrange-perm ((i, v) ∷ m)))

      pub insert_or_assign-Distinct : Distinct (insert_or_assign layout i v m)
      unfolding insert_or_assign
      insert_or_assign-Distinct = elim (Option-cases (find i m)) [
        | inl new ↦ rw new (inserted new (new, d)).0
        | inr (w, old) ↦ rw old (assign-Distinct i v m (rw old) d)
      ]

      pub find-insert_or_assign :
          (k : Text)
          → find k (insert_or_assign layout i v m) ≡ (if text_eq i k then some v else find k m)
      unfolding insert_or_assign
      find-insert_or_assign k = elim (Option-cases (find i m)) [
        | inl new ↦ rw new ((inserted new (new, d)).1 k ∙ (unfold find in refl))
        | inr (w, old) ↦ rw old (find-assign i k v m (rw old))
      ]
