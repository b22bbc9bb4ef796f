-- ===== src/Manager/Request/Dirtiest.antt =====
-- Which sector a garbage collection empties.
use jekv.Base.{
  ℕ, Bool-cases, List, Option, [], arith, false, inl, inr, le_ℤ, negsuc, pos, refl, some, sym, true,
  ℤ, ◌∷◌, ◌≡◌, ◌⊎◌, subst,
}
use jekv.Manager.State.{Manager, sector_at, get_gc_size}
use jekv.Manager.Request.{find_dirtiest}

abbrev pub gc_size_of : Manager → ℕ → ℤ
gc_size_of sm i = get_gc_size (sector_at sm i)

-- No sector of the list has more room to gain than `most`.
abbrev pub NoneAbove : Manager → ℤ → List ℕ → Type 0
NoneAbove sm most [] = Unit
NoneAbove sm most (i ∷ is) = (le_ℤ (gc_size_of sm i) most ≡ true) × NoneAbove sm most is

abbrev pub Among : ℕ → List ℕ → Type 0
Among i [] = ⊥
Among i (j ∷ js) = (i ≡ j) ⊎ Among i js

-- What the loop returns: a sector of the list with `most` to gain, or what it has begun with.
abbrev pub Chosen : Manager → List ℕ → ℤ → Option ℕ → ℤ × Option ℕ → Type 0
Chosen sm is most old (m, o) =
    NoneAbove sm m is
    × (le_ℤ most m ≡ true)
    × (((m ≡ most) × (o ≡ old)) ⊎ ((i : ℕ) × (o ≡ some i) × (Among i is) × (gc_size_of sm i ≡ m)))

le_ℤ-trans : (a b c : ℤ) → le_ℤ a b ≡ true → le_ℤ b c ≡ true → le_ℤ a c ≡ true
le_ℤ-trans (pos a) (pos b) (pos c) h k = ground arith
le_ℤ-trans (pos a) (pos b) (negsuc c) h k = k
le_ℤ-trans (pos a) (negsuc b) c h k = ground arith
le_ℤ-trans (negsuc a) (pos b) (pos c) h k = refl
le_ℤ-trans (negsuc a) (pos b) (negsuc c) h k = ground arith
le_ℤ-trans (negsuc a) (negsuc b) (pos c) h k = refl
le_ℤ-trans (negsuc a) (negsuc b) (negsuc c) h k = ground arith

le_ℤ-refl : (a : ℤ) → le_ℤ a a ≡ true
le_ℤ-refl (pos a) = ground arith
le_ℤ-refl (negsuc a) = ground arith

le_ℤ-total : (a b : ℤ) → le_ℤ a b ≡ false → le_ℤ b a ≡ true
le_ℤ-total (pos a) (pos b) h = ground arith
le_ℤ-total (pos a) (negsuc b) h = refl
le_ℤ-total (negsuc a) (pos b) h = ground arith
le_ℤ-total (negsuc a) (negsuc b) h = ground arith

Chosen-cons_better :
    (sm : Manager) (i : ℕ) (is : List ℕ) (most : ℤ) (old : Option ℕ) (r : ℤ × Option ℕ)
    → le_ℤ (gc_size_of sm i) most ≡ false
    → Chosen sm is (gc_size_of sm i) (some i) r
    → Chosen sm (i ∷ is) most old r
Chosen-cons_better sm i is most old (m, o) e (above, le, pick) = (
  (le, above),
  le_ℤ-trans most (gc_size_of sm i) m (le_ℤ-total (gc_size_of sm i) most e) le,
  elim pick [
    | inl (same, from) ↦ inr (i, from, inl refl, sym same)
    | inr (j, from, among, size) ↦ inr (j, from, inr among, size)
  ],
)

Chosen-cons_worse :
    (sm : Manager) (i : ℕ) (is : List ℕ) (most : ℤ) (old : Option ℕ) (r : ℤ × Option ℕ)
    → le_ℤ (gc_size_of sm i) most ≡ true
    → Chosen sm is most old r
    → Chosen sm (i ∷ is) most old r
Chosen-cons_worse sm i is most old (m, o) e (above, le, pick) = (
  (le_ℤ-trans (gc_size_of sm i) most m e le, above),
  le,
  elim pick [ inl same ↦ inl same | inr (j, from, among, size) ↦ inr (j, from, inr among, size) ],
)

module _ (sm : Manager) (i : ℕ) (is : List ℕ) (most : ℤ) (old : Option ℕ) where
  find_dirtiest_worse :
      le_ℤ (gc_size_of sm i) most ≡ true
      → find_dirtiest sm (i ∷ is) most old ≡ find_dirtiest sm is most old
  unfolding find_dirtiest
  find_dirtiest_worse e = rw (e, find_dirtiest) refl

  find_dirtiest_better :
      le_ℤ (gc_size_of sm i) most ≡ false
      → find_dirtiest sm (i ∷ is) most old ≡ find_dirtiest sm is (gc_size_of sm i) (some i)
  unfolding find_dirtiest
  find_dirtiest_better e = rw (e, find_dirtiest) refl

-- The loop finds a sector with the most room to gain, if that is more than it begins with.
pub find_dirtiest-Chosen :
    (sm : Manager) (is : List ℕ) (most : ℤ) (old : Option ℕ)
    → Chosen sm is most old (find_dirtiest sm is most old)
unfolding find_dirtiest
find_dirtiest-Chosen sm [] most old = (tt, le_ℤ-refl most, inl (refl, refl))
find_dirtiest-Chosen sm (i ∷ is) most old = elim (Bool-cases (le_ℤ (gc_size_of sm i) most)) [
  | inl e ↦
      subst (λ r. Chosen sm (i ∷ is) most old r) (sym (find_dirtiest_worse sm i is most old e))
        (Chosen-cons_worse sm i is most old _ e (find_dirtiest-Chosen sm is most old))
  | inr e ↦
      subst (λ r. Chosen sm (i ∷ is) most old r) (sym (find_dirtiest_better sm i is most old e))
        (Chosen-cons_better sm i is most old _ e
          (find_dirtiest-Chosen sm is (gc_size_of sm i) (some i)))
]
