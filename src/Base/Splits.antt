-- ===== src/Base/Splits.antt =====
-- Splitting a text at a separator, and joining its parts.
use tg_ws_keenetic.Base.{
  ℕ, ◌≤◌, ◌≡◌, refl, ap, ◌∙◌, ◌↔◌, true, false, List, [], ◌∷◌, ◌++◌, arith, ◌==◌, either, length,
  All,
}
use tg_ws_keenetic.Base.Text.{split, join, before_first, contains}

-- A text without the separator.
abbrev pub Lacks : ℕ → List ℕ → Type 0
Lacks separator text = All (λ c. (c == separator) ≡ false) text

module _ (separator : ℕ) where
  length-before_first :
      (c : ℕ) (parts : List (List ℕ))
      → 1 ≤ length parts
      → length (before_first c parts) ≡ length parts
  length-before_first c [] h = absurd (omega arith)
  length-before_first c (part ∷ parts) h = refl

  pub length-split : (text : List ℕ) → 1 ≤ length (split separator text)
  length-split [] = omega arith
  length-split (c ∷ cs) =
      let h = length-split cs in
      either (λ ps. 1 ≤ length ps) (c == separator) (λ _. omega (arith, h))
        (λ _. omega (arith, h, length-before_first c (split separator cs) h))

  join-before_first :
      (c : ℕ) (parts : List (List ℕ))
      → 1 ≤ length parts
      → join separator (before_first c parts) ≡ c ∷ join separator parts
  join-before_first c [] h = absurd (omega arith)
  join-before_first c (part ∷ []) h = refl
  join-before_first c (part ∷ next ∷ parts) h = refl

  join_empty :
      (parts : List (List ℕ))
      → 1 ≤ length parts
      → join separator ([] ∷ parts) ≡ separator ∷ join separator parts
  join_empty [] h = absurd (omega arith)
  join_empty (part ∷ parts) h = refl

  -- The parts joined are the text again.
  pub join-split : (text : List ℕ) → join separator (split separator text) ≡ text
  join-split [] = refl
  join-split (c ∷ cs) =
      let h = length-split cs in
      either (λ ps. join separator ps ≡ c ∷ cs) (c == separator)
        (λ same.
          let e : separator ≡ c = ground arith in
          join_empty (split separator cs) h
          ∙ ap (λ x. x ∷ join separator (split separator cs)) e
          ∙ ap (λ t. c ∷ t) (join-split cs))
        (λ _. join-before_first c (split separator cs) h ∙ ap (λ t. c ∷ t) (join-split cs))

  before_first-Lacks :
      (c : ℕ) (parts : List (List ℕ))
      → (c == separator) ≡ false
      → All (Lacks separator) parts
      → All (Lacks separator) (before_first c parts)
  before_first-Lacks c [] e h = ((e, tt), tt)
  before_first-Lacks c (part ∷ parts) e (h, k) = ((e, h), k)

  pub split-Lacks : (text : List ℕ) → All (Lacks separator) (split separator text)
  split-Lacks [] = (tt, tt)
  split-Lacks (c ∷ cs) =
      either (All (Lacks separator)) (c == separator) (λ _. (tt, split-Lacks cs))
        (λ other. before_first-Lacks c (split separator cs) other (split-Lacks cs))

  split_part : (part : List ℕ) → Lacks separator part → split separator part ≡ part ∷ []
  split_part [] h = refl
  split_part (c ∷ cs) (e, h) = simp e (ap (before_first c) (split_part cs h))

  split_behind :
      (part rest : List ℕ)
      → Lacks separator part
      → split separator (part ++ (separator ∷ rest)) ≡ part ∷ split separator rest
  split_behind [] rest h =
      let same : (separator == separator) ≡ true = ground arith in simp same refl
  split_behind (c ∷ cs) rest (e, h) = simp e (ap (before_first c) (split_behind cs rest h))

  -- Parts without the separator are found again.
  pub split-join :
      (part : List ℕ) (parts : List (List ℕ))
      → All (Lacks separator) (part ∷ parts)
      → split separator (join separator (part ∷ parts)) ≡ part ∷ parts
  split-join part [] (h, k) = split_part part h
  split-join part (next ∷ parts) (h, k) =
      split_behind part (join separator (next ∷ parts)) h
      ∙ ap (λ ps. part ∷ ps) (split-join next parts k)

  -- The separator is in the text exactly where there are two parts at least.
  pub contains-split :
      (text : List ℕ)
      → (contains (separator ∷ []) text ≡ true) ↔ (2 ≤ length (split separator text))
  contains-split [] = (λ e. cc e, λ k. absurd (omega arith))
  contains-split (c ∷ cs) =
      let h = length-split cs in
      let l = length-before_first c (split separator cs) h in
      ground (arith, h, l, contains-split cs)
