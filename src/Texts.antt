-- ===== src/Texts.antt =====
-- Identifiers as lists of code points, and sync.Map under such keys.
use disturbancesmlx.Prelude.{
  ℕ, ◌≡◌, refl, ◌∙◌, inl, inr, Bool, true, false, ◌&&◌, Option, none, some, List, [], ◌∷◌, arith,
  ◌==◌, if◌then◌else◌, Bool-cases,
}

-- A text: its code points.
abbrev pub Text : Type 0
Text = List ℕ

unfoldable pub text_eq : Text → Text → Bool
text_eq [] [] = true
text_eq [] (d ∷ ds) = false
text_eq (c ∷ cs) [] = false
text_eq (c ∷ cs) (d ∷ ds) = c == d && text_eq cs ds

pub text_eq_refl : (s : Text) → text_eq s s ≡ true
unfolding text_eq
text_eq_refl [] = refl
text_eq_refl (c ∷ cs) = ground (arith, text_eq_refl cs)

pub text_eq-eq : (s t : Text) → text_eq s t ≡ true → s ≡ t
unfolding text_eq
text_eq-eq [] [] e = refl
text_eq-eq [] (d ∷ ds) e = cc
text_eq-eq (c ∷ cs) [] e = cc
text_eq-eq (c ∷ cs) (d ∷ ds) e =
    let tail : text_eq cs ds ≡ true = ground arith in
    let head : c ≡ d = ground arith in cc (head, text_eq-eq cs ds tail)

module _ {A : Type 0} where
  -- m.Load(key)
  unfoldable pub load : Text → List (Text × A) → Option A
  load k [] = none
  load k (x ∷ xs) = if text_eq x.0 k then some x.1 else load k xs

  -- m.Delete(key)
  unfoldable pub delete : Text → List (Text × A) → List (Text × A)
  delete k [] = []
  delete k (x ∷ xs) = if text_eq x.0 k then delete k xs else x ∷ delete k xs

  -- m.Store(key, value)
  unfoldable pub store : Text → A → List (Text × A) → List (Text × A)
  store k v xs = (k, v) ∷ delete k xs

  pub load-delete :
      (c k : Text) (xs : List (Text × A))
      → load c (delete k xs) ≡ (if text_eq k c then none else load c xs)
  unfolding load delete
  load-delete c k [] = ground arith
  load-delete c k (x ∷ xs) = elim (Bool-cases (text_eq x.0 k)) [
    | inl p ↦ rw p (rw (text_eq-eq x.0 k p) (load-delete c k xs ∙ ground arith))
    | inr p ↦ rw p (elim (Bool-cases (text_eq x.0 c)) [
      | inl q ↦
          let e : x.0 ≡ c = text_eq-eq x.0 c q in
          elim (Bool-cases (text_eq k c)) [
            | inl r ↦
                let e' : k ≡ c = text_eq-eq k c r in absurd (ground (arith, rw (e, ← e') at p))
            | inr r ↦ rw (q, r) refl
          ]
      | inr q ↦ rw q (load-delete c k xs)
    ])
  ]

  pub load-store :
      (c k : Text) (v : A) (xs : List (Text × A))
      → load c (store k v xs) ≡ (if text_eq k c then some v else load c xs)
  unfolding load store
  load-store c k v xs = elim (Bool-cases (text_eq k c)) [
    | inl p ↦ rw p refl
    | inr p ↦ rw p (load-delete c k xs ∙ rw p refl)
  ]
