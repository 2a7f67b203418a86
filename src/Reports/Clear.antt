-- ===== src/Reports/Clear.antt =====
-- ClearVotesForLine takes away the votes of its line and no others.
use disturbancesmlx.Prelude.{
  ℕ, ◌≡◌, refl, sym, ap, ◌∙◌, inl, inr, Bool, true, false, ◌&&◌, ◌||◌, List, [], ◌∷◌, arith, Has,
  ◌==◌, if◌then◌else◌, Bool-cases,
}
use disturbancesmlx.Clock.{Time, sub}
use disturbancesmlx.Reports.Cache.{total, Cache, IsCache}
use disturbancesmlx.Reports.Model.{
  ReportData, Key, rate_limiter_key, key_eq, votes_for, count_votes, clear_from, clear_votes,
}

abbrev Item : Type 0
Item = Key × ReportData

-- Every report is held under its own key, as AddReportManually stores it.
abbrev pub KeysMatch : List Item → Type 0
KeysMatch [] = Unit
KeysMatch (kv ∷ kvs) = (kv.0 ≡ rate_limiter_key kv.1.report) × KeysMatch kvs

-- The key is among those that the loop deletes.
hit : ℕ → Key → List Item → Bool
hit line k [] = false
hit line k (kv ∷ kvs) = (kv.1.report.line == line && key_eq k kv.0) || hit line k kvs

total_cong :
    (f g : Item → ℕ) (kvs : List Item) → ((kv : Item) → f kv ≡ g kv) → total f kvs ≡ total g kvs
total_cong f g [] h = refl
total_cong f g (kv ∷ kvs) h = omega (arith, h kv, total_cong f g kvs h)

hit_self :
    (line : ℕ) (x : Item) (kvs : List Item)
    → Has x kvs
    → x.1.report.line ≡ line
    → hit line x.0 kvs ≡ true
unfolding hit
hit_self line x [] m e = absurd m
hit_self line x (kv ∷ kvs) (inl q) e =
    let held : kv.1.report.line ≡ line = ap (λ (y : Item). y.1.report.line) q ∙ e in
    let left : x.0.0 ≡ kv.0.0 = ap (λ (y : Item). y.0.0) (sym q) in
    let right : x.0.1 ≡ kv.0.1 = ap (λ (y : Item). y.0.1) (sym q) in ground arith
hit_self line x (kv ∷ kvs) (inr m) e = ground (arith, hit_self line x kvs m e)

hit-line :
    (line : ℕ) (k : Key) (kvs : List Item) → KeysMatch kvs → hit line k kvs ≡ true → k.0 ≡ line
unfolding hit
hit-line line k [] h e = cc
hit-line line k (kv ∷ kvs) h e =
    let held : kv.0.0 ≡ kv.1.report.line = ap (λ (y : Key). y.0) h.0 in
    ground (arith, hit-line line k kvs h.1)

module _ (c : Cache Key ReportData) (laws : IsCache key_eq c) (now : Time) (line : ℕ) where
  total-clear_from :
      (f : Item → ℕ) (kvs : List Item) (s : c.Carrier)
      → total f (c.items now (clear_from c line kvs s))
        ≡ total (λ kv. if hit line kv.0 kvs then 0 else f kv) (c.items now s)
  unfolding clear_from hit
  total-clear_from f [] s = refl
  total-clear_from f (kv ∷ kvs) s = elim (Bool-cases (kv.1.report.line == line)) [
    | inl here ↦
        rw (here, total-clear_from f kvs (c.delete kv.0 s), laws.total-delete now kv.0 s)
          (total_cong _ _ (c.items now s) (λ x. ground arith))
    | inr other ↦
        rw (other, total-clear_from f kvs s) (total_cong _ _ (c.items now s) (λ x. ground arith))
  ]

  remaining :
      (l : ℕ) (kvs xs : List Item)
      → KeysMatch kvs
      → KeysMatch xs
      → ((x : Item) → Has x xs → Has x kvs)
      → total (λ kv. if hit line kv.0 kvs then 0 else votes_for c l kv) xs
        ≡ (if l == line then 0 else total (votes_for c l) xs)
  remaining l kvs [] h k sub = ground arith
  remaining l kvs (x ∷ xs) h k sub = ground (
    arith,
    remaining l kvs xs h k.1 (λ y m. sub y (inr m)),
    hit_self line x kvs (sub x (inl refl)),
    hit-line line x.0 kvs h,
    ap (λ (y : Key). y.0) k.0,
  )

  -- Clearing the votes of a line leaves none of them, and every vote of the other lines.
  pub count_votes-clear_votes :
      (l : ℕ) (s : c.Carrier)
      → KeysMatch (c.items now s)
      → count_votes c now l (clear_votes c now line s)
        ≡ (if l == line then 0 else count_votes c now l s)
  unfolding count_votes clear_votes
  count_votes-clear_votes l s h =
      total-clear_from (votes_for c l) (c.items now s) s
      ∙ remaining l (c.items now s) (c.items now s) h h (λ x m. m)
