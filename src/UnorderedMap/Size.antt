-- ===== src/UnorderedMap/Size.antt =====
-- How many entries a map has.
use mathlib.Core.List.{Perm, Permᴰ}
use mathlib.Core.Logic.{∥∥₁_elim}
use mathlib.Core.HLevel.{hedberg}
use native.Mathlib.Decide.{ℕ_discrete}
use mini_pgw.Prelude.{suc, ◌≤◌, ◌≡◌, refl, ap, ◌∙◌, Bool, [], ◌∷◌, arith, length}
use mini_pgw.Text.{Text}
use mini_pgw.UnorderedMap.{Map, Layout, assign, insert_or_assign, erase_if}

module _ {ℓ} {V : Type ℓ} where
  Permᴰ-length : {a b : Map V} → Permᴰ a b → length a ≡ length b
  Permᴰ-length Permᴰ.nil = refl
  Permᴰ-length (Permᴰ.cons e p) = ap suc (Permᴰ-length p)
  Permᴰ-length (Permᴰ.swap e f) = refl
  Permᴰ-length (Permᴰ.trans p q) = Permᴰ-length p ∙ Permᴰ-length q

  Perm-length : {a b : Map V} → Perm a b → length a ≡ length b
  Perm-length {a} {b} p = ∥∥₁_elim p (hedberg ℕ_discrete (length a) (length b)) Permᴰ-length

  length-assign : (k : Text) (v : V) (m : Map V) → length (assign k v m) ≡ length m
  unfolding assign
  length-assign k v [] = refl
  length-assign k v ((j, w) ∷ m) = ground (arith, length-assign k v m)

  pub length-insert_or_assign :
      (layout : Layout V) (k : Text) (v : V) (m : Map V)
      → length (insert_or_assign layout k v m) ≤ suc (length m)
  unfolding insert_or_assign
  length-insert_or_assign layout k v m =
      ground (arith, length-assign k v m, Perm-length (layout.arrange-perm ((k, v) ∷ m)))

  pub length-erase_if : (p : V → Bool) (m : Map V) → length (erase_if p m) ≤ length m
  unfolding erase_if
  length-erase_if p [] = omega arith
  length-erase_if p ((j, v) ∷ m) = ground (arith, length-erase_if p m)
