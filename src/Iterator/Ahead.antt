-- ===== src/Iterator/Ahead.antt =====
-- Where jekv_iterator_next stops: at an item that is looked for, ahead of where it was.
use jekv.Base.{
  ℕ, ◌+◌, ◌-◌, ◌*◌, ◌≤◌, ◌<◌, ◌≡◌, refl, ap, ◌∙◌, true, false, List, [], ◌∷◌, Option, none, some,
  length, min, ◌==◌, Result, ok, err, Result-cases, inl, inr, arith, Bool-cases, leb_of_ltb, ltb,
  ltb→lt,
}
use jekv.Config.{item_state_using, entry_count}
use jekv.Port.{Driver}
use jekv.Item.{Item, get_span}
use jekv.Item.Layout.{get_span_pos}
use jekv.Sector.Find.{Query, FindCtx, find_item, find_into, matches}
use jekv.Sector.Find.Sound.{find_item-Hits, Hits, find_item_end}
use jekv.Manager.State.{sector_at}
use jekv.Manager.Query.{Place}
use jekv.Manager.Query.Reads.{find_item-flash}
use jekv.Storage.State.{StCtx, on_sec}
use jekv.Ptm.Linked.{is_in}
use jekv.Iterator.{from, next_loop}

-- No sector stands twice in a list.
abbrev pub NoTwice : List ℕ → Type 0
NoTwice [] = Unit
NoTwice (i ∷ is) = (is_in i is ≡ false) × NoTwice is

-- `is` is an end of `every`, and so are its own ends.
abbrev pub Tails : List ℕ → List ℕ → Type 0
Tails every [] = Unit
Tails every (i ∷ is) = (from i every ≡ i ∷ is) × Tails every is

Tails-cons :
    (x : ℕ) (every is : List ℕ) → is_in x is ≡ false → Tails every is → Tails (x ∷ every) is
unfolding from
Tails-cons x every [] e t = tt
Tails-cons x every (i ∷ is) e t =
    let off : (i == x) ≡ false = ground (arith, e) in
    (rw off t.0, Tails-cons x every is (ground (arith, e)) t.1)

pub NoTwice-Tails : (is : List ℕ) → NoTwice is → Tails is is
unfolding from
NoTwice-Tails [] n = tt
NoTwice-Tails (i ∷ is) n = (ground arith, Tails-cons i is is n.0 (NoTwice-Tails is n.1))

pub Tails-from : (every is : List ℕ) (i : ℕ) → Tails every is → Tails every (from i is)
unfolding from
Tails-from every [] i t = tt
Tails-from every (j ∷ is) i t = elim (Bool-cases (i == j)) [
  | inl e ↦ rw e t
  | inr e ↦ rw e (Tails-from every is i t.1)
]

-- The slices from `start` on in the first of these sectors, and all slices of the others.
abbrev pub left_in : List ℕ → ℕ → ℕ
left_in is start = 128 * length is - min start 128

-- A call that has read only: the device, the groups and the list of sectors are as before.
abbrev pub Same : StCtx → StCtx → Type 0
Same c c' =
    (c'.flash ≡ c.flash)
    × (c'.storage.sm.active ≡ c.storage.sm.active)
    × (c'.storage.group_list ≡ c.storage.group_list)

Same-trans : (a b c : StCtx) → Same a b → Same b c → Same a c
Same-trans a b c p q = (q.0 ∙ p.0, q.1 ∙ p.1, q.2 ∙ p.2)

-- Either no item is found, or one that is in use and meets the query, in a sector of the list and
-- with fewer than `n` slices left behind it.
abbrev pub Ahead : List ℕ → Query → ℕ → StCtx → Result (Option Place) × StCtx → Type 0
Ahead every q n c (err code, c') = ⊥
Ahead every q n c (ok none, c') = Same c c'
Ahead every q n c (ok (some at), c') =
    Same c c'
    × (at.item.state ≡ item_state_using)
    × (matches q at.item ≡ true)
    × (0 < length (from at.sector every))
    × (left_in (from at.sector every) (at.index + get_span at.item) < n)

pub Ahead-from :
    (every : List ℕ) (q : Query) (n m : ℕ) (b c : StCtx) (r : Result (Option Place) × StCtx)
    → Same b c
    → n ≤ m
    → Ahead every q n c r
    → Ahead every q m b r
Ahead-from every q n m b c (err code, c') s le a = a
Ahead-from every q n m b c (ok none, c') s le a = Same-trans b c c' s a
Ahead-from every q n m b c (ok (some at), c') s le a =
    (Same-trans b c c' s a.0, a.1, a.2, a.3, omega (arith, a.4))

module _ ⦃d : Driver⦄ where
  hit_of :
      (q : Query) (start at : ℕ) (c : FindCtx)
      → (find_item q start c).0 ≡ ok at
      → (start ≤ at)
        × (start < entry_count)
        × ((find_item q start c).1.item.state ≡ item_state_using)
        × (matches q (find_item q start c).1.item ≡ true)
  hit_of q start at c e =
      let (le, used, match) = facts (find_item q start c) e (find_item-Hits q start c) in
      (
        le,
        elim (Bool-cases (ltb start entry_count)) [
          | inl lt ↦ ltb→lt start entry_count lt
          | inr ge ↦ absurd (
              let none_found =
                ap (λ (r : Result ℕ × FindCtx). r.0)
                  (find_item_end q start c (leb_of_ltb start entry_count ge)) in
              ground (arith, e, none_found))
        ],
        used,
        match,
      )
    where
      facts :
          (r : Result ℕ × FindCtx)
          → r.0 ≡ ok at
          → Hits c.flash c.sec q start r
          → (start ≤ at) × (r.1.item.state ≡ item_state_using) × (matches q r.1.item ≡ true)
      facts (ok found, c') e' this = (ground (arith, e', this.behind), this.using, this.matching)
      facts (err code, c') e' none_found = absurd (ground (arith, e'))

  pub next_loop-Ahead :
      (every is : List ℕ) (q : Query) (start : ℕ) (item : Item) (c : StCtx)
      → Tails every is
      → Ahead every q (left_in is start) c (next_loop q is start item c)
  unfolding next_loop
  next_loop-Ahead every [] q start item c t = (refl, refl, refl)
  next_loop-Ahead every (i ∷ is) q start item c t =
      let here : FindCtx = record {
        flash = c.flash;
        sec = sector_at c.storage.sm i;
        item = item;
      } in
      let same = find_item-flash q start here in
      let after : StCtx = (on_sec i (find_into q start item) c).1 in
      elim (Result-cases (find_item q start here).0) [
        | inr (code, e) ↦
            rw (e, next_loop)
              (Ahead-from every q (left_in is 0) (left_in (i ∷ is) start) c after _
                (same, refl, refl) (omega arith)
                (next_loop-Ahead every is q 0 (find_item q start here).1.item after t.1))
        | inl (at, e) ↦
            let (le, inside, used, match) = hit_of q start at here e in
            let on = get_span_pos (find_item q start here).1.item in
            rw (e, next_loop)
              ((same, refl, refl), used, match, rw t.0 (omega arith), rw t.0 (omega (arith, on)))
      ]
