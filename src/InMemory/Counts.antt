-- ===== src/InMemory/Counts.antt =====
-- How many sessions of the in-memory store pass a test, after each operation: what the store is as a bag.
use mathlib.Core.List.{Perm, Permᴰ}
use mathlib.Core.Logic.{∥∥₁_elim}
use mathlib.Core.HLevel.{hedberg}
use native.Mathlib.Decide.{ℕ_discrete}
use mini_pgw.Prelude.{
  ℕ, ◌+◌, ◌≡◌, refl, ap, sym, ◌∙◌, Bool, true, not, ◌&&◌, [], ◌∷◌, none, arith, is_some, count_if,
  Option-cases, inl, inr,
}
use mini_pgw.Text.{Text, text_eq}
use mini_pgw.Text.Order.{text_eq_iff, text_eq_refl}
use mini_pgw.Store.{StoredSession, one_if}
use mini_pgw.UnorderedMap.{Map, Layout, find, assign, erase, insert_or_assign, erase_if, values_if}
use mini_pgw.InMemory.Laws.{IsValid, Keyed-tail}

abbrev pub count_in : (StoredSession → Bool) → Map StoredSession → ℕ
count_in p [] = 0
count_in p ((j, v) ∷ m) = one_if (p v) + count_in p m

-- Passes the test, and is of another IMSI.
abbrev pub apart : Text → (StoredSession → Bool) → StoredSession → Bool
apart k p s = p s && not (text_eq k s.imsi)

pub count_if-values_if :
    (p q : StoredSession → Bool) (m : Map StoredSession)
    → count_if p (values_if q m) ≡ count_in (λ s. p s && q s) m
unfolding values_if
count_if-values_if p q [] = refl
count_if-values_if p q ((j, v) ∷ m) = ground (arith, count_if-values_if p q m)

-- Where the store has no session of an IMSI, all are of others.
count_in-apart :
    (p : StoredSession → Bool) (k : Text) (m : Map StoredSession)
    → IsValid m
    → find k m ≡ none
    → count_in (apart k p) m ≡ count_in p m
unfolding find
count_in-apart p k [] h e = refl
count_in-apart p k ((j, v) ∷ m) h e = ground (
  arith,
  count_in-apart p k m (Keyed-tail j v m h),
  h.keyed j v,
  text_eq_refl j,
  text_eq_iff j k,
  text_eq_iff k v.imsi,
)

pub count_in-erase :
    (p : StoredSession → Bool) (k : Text) (m : Map StoredSession)
    → IsValid m
    → count_in p (erase k m) ≡ count_in (apart k p) m
unfolding find erase
count_in-erase p k [] h = refl
count_in-erase p k ((j, v) ∷ m) h = ground (
  arith,
  count_in-erase p k m (Keyed-tail j v m h),
  count_in-apart p k m (Keyed-tail j v m h),
  h.keyed j v,
  h.distinct.0,
  text_eq_refl j,
  text_eq_iff j k,
  text_eq_iff k v.imsi,
)

count_in-assign :
    (p : StoredSession → Bool) (k : Text) (s : StoredSession) (m : Map StoredSession)
    → IsValid m
    → is_some (find k m) ≡ true
    → count_in p (assign k s m) ≡ one_if (p s) + count_in (apart k p) m
unfolding find assign
count_in-assign p k s [] h e = cc
count_in-assign p k s ((j, v) ∷ m) h e = ground (
  arith,
  count_in-assign p k s m (Keyed-tail j v m h),
  count_in-apart p k m (Keyed-tail j v m h),
  h.keyed j v,
  h.distinct.0,
  text_eq_refl j,
  text_eq_iff j k,
  text_eq_iff k v.imsi,
)

Permᴰ-count_in :
    (p : StoredSession → Bool) {a b : Map StoredSession} → Permᴰ a b → count_in p a ≡ count_in p b
Permᴰ-count_in p Permᴰ.nil = refl
Permᴰ-count_in p (Permᴰ.cons {a = (j, v)} {b = (i, w)} e q) = ground (arith, Permᴰ-count_in p q)
Permᴰ-count_in p (Permᴰ.swap {a = (j, v)} {b = (i, w)} {a' = (j', v')} {b' = (i', w')} e f) =
    ground arith
Permᴰ-count_in p (Permᴰ.trans q r) = Permᴰ-count_in p q ∙ Permᴰ-count_in p r

Perm-count_in :
    (p : StoredSession → Bool) {a b : Map StoredSession} → Perm a b → count_in p a ≡ count_in p b
Perm-count_in p {a} {b} q =
    ∥∥₁_elim q (hedberg ℕ_discrete (count_in p a) (count_in p b)) (Permᴰ-count_in p)

pub count_in-insert_or_assign :
    (layout : Layout StoredSession) (p : StoredSession → Bool) (s : StoredSession)
    (m : Map StoredSession)
    → IsValid m
    → count_in p (insert_or_assign layout s.imsi s m) ≡ one_if (p s) + count_in (apart s.imsi p) m
unfolding insert_or_assign
count_in-insert_or_assign layout p s m h = elim (Option-cases (find s.imsi m)) [
  | inl new ↦ rw new (
      Perm-count_in p (layout.arrange-perm ((s.imsi, s) ∷ m))
      ∙ ap (◌+◌ (one_if (p s))) (sym (count_in-apart p s.imsi m h new)))
  | inr (t, old) ↦ rw old (count_in-assign p s.imsi s m h (rw old))
]

pub count_in-erase_if :
    (p q : StoredSession → Bool) (m : Map StoredSession)
    → count_in p (erase_if q m) ≡ count_in (λ s. p s && not (q s)) m
unfolding erase_if
count_in-erase_if p q [] = refl
count_in-erase_if p q ((j, v) ∷ m) = ground (arith, count_in-erase_if p q m)

pub count_in-find :
    (k : Text) (m : Map StoredSession)
    → IsValid m
    → count_in (λ s. text_eq k s.imsi) m ≡ one_if (is_some (find k m))
unfolding find
count_in-find k [] h = refl
count_in-find k ((j, v) ∷ m) h = ground (
  arith,
  count_in-find k m (Keyed-tail j v m h),
  h.keyed j v,
  h.distinct.0,
  text_eq_refl j,
  text_eq_iff j k,
  text_eq_iff k v.imsi,
)
