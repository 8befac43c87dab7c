-- ===== src/Cdr/Format.antt =====
-- The lines of the file, and the records that they stand for.
use mini_pgw.Prelude.{ℕ, ◌≡◌, ◌≢◌, refl, sym, ◌∙◌, List, [], ◌∷◌, ◌++◌, arith, append_assoc, All}
use mini_pgw.Text.{Text}
use mini_pgw.Cdr.{CdrRecord, line}
use mini_pgw.Cdr.Drain.{contents}

-- Text with neither a comma nor a newline.
abbrev pub IsPlain : Text → Type 0
IsPlain = All (λ c. (c ≢ b',') × (c ≢ 10))

abbrev pub IsPlainRecord : CdrRecord → Type 0
IsPlainRecord rec = IsPlain rec.timestamp × IsPlain rec.imsi × IsPlain rec.action

-- Plain text ends at the first separator.
split_at :
    (sep : ℕ) (a b r s : Text)
    → All (λ c. c ≢ sep) a
    → All (λ c. c ≢ sep) b
    → a ++ (sep ∷ r) ≡ b ++ (sep ∷ s)
    → (a ≡ b) × (r ≡ s)
split_at sep [] [] r s ha hb e = (refl, cc)
split_at sep [] (y ∷ b) r s ha hb e = absurd (hb.0 (cc))
split_at sep (x ∷ a) [] r s ha hb e = absurd (ha.0 (cc))
split_at sep (x ∷ a) (y ∷ b) r s ha hb e =
    let (p, q) = split_at sep a b r s ha.1 hb.1 (cc) in (cc, q)

no_comma : (t : Text) → IsPlain t → All (λ c. c ≢ b',') t
no_comma [] h = tt
no_comma (c ∷ t) h = (h.0.0, no_comma t h.1)

no_newline : (t : Text) → IsPlain t → All (λ c. c ≢ 10) t
no_newline [] h = tt
no_newline (c ∷ t) h = (h.0.1, no_newline t h.1)

line-append :
    (x : CdrRecord) (r : Text)
    → line x ++ r ≡ x.timestamp ++ (b',' ∷ (x.imsi ++ (b',' ∷ (x.action ++ (10 ∷ r)))))
unfolding line
line-append x r = simp append_assoc

-- A line is read back in one way.
line-injective :
    (x y : CdrRecord) (r s : Text)
    → IsPlainRecord x
    → IsPlainRecord y
    → line x ++ r ≡ line y ++ s
    → (x ≡ y) × (r ≡ s)
line-injective x y r s hx hy e =
    let (p, e1) =
      split_at b',' x.timestamp y.timestamp _ _ (no_comma _ hx.0) (no_comma _ hy.0)
        (sym (line-append x r) ∙ e ∙ line-append y s) in
    let (q, e2) = split_at b',' x.imsi y.imsi _ _ (no_comma _ hx.1) (no_comma _ hy.1) e1 in
    let (t, e3) = split_at 10 x.action y.action r s (no_newline _ hx.2) (no_newline _ hy.2) e2 in
    (ground (arith, p, q, t), e3)

append-cons-ne-nil : (a : Text) (c : ℕ) (r : Text) → a ++ (c ∷ r) ≢ []
append-cons-ne-nil [] c r e = cc
append-cons-ne-nil (x ∷ a) c r e = cc

line-append-ne-nil : (x : CdrRecord) (r : Text) → line x ++ r ≢ []
line-append-ne-nil x r e = append-cons-ne-nil x.timestamp b',' _ (sym (line-append x r) ∙ e)

-- Two lists of records with neither a comma nor a newline in any field are the same if their lines
-- give the same file.
pub contents-injective :
    (xs ys : List CdrRecord)
    → All IsPlainRecord xs
    → All IsPlainRecord ys
    → contents xs ≡ contents ys
    → xs ≡ ys
unfolding contents
contents-injective [] [] hx hy e = refl
contents-injective [] (y ∷ ys) hx hy e = absurd (line-append-ne-nil y (contents ys) (sym e))
contents-injective (x ∷ xs) [] hx hy e = absurd (line-append-ne-nil x (contents xs) e)
contents-injective (x ∷ xs) (y ∷ ys) hx hy e =
    let (p, q) = line-injective x y (contents xs) (contents ys) hx.0 hy.0 e in
    let rest = contents-injective xs ys hx.1 hy.1 q in λ i. p i ∷ rest i
