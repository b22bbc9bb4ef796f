-- ===== src/Hash/Erase.antt =====
-- What jekv_hash_erase leaves of an index.
use jekv.Base.{
  ℕ, List, [], ◌∷◌, Bool-cases, Option, Result, arith, err, inl, inr, length, lt→ltb, none,
  not_found, ok, refl, some, suc, sym, ◌-◌, ◌<◌, ◌==◌, ◌↔◌, ◌∙◌, ◌≡◌, ◌≢◌, ==_iff,
}
use jekv.Hash.{Node, Hash, nodes, hash_erase, remove_first}
use jekv.Hash.Index.{Rising, IsIndex, HasNode, Rising-weaken}

-- What is left of the nodes when the one at `index` is taken out.
abbrev pub Removed : ℕ → ℕ → List Node → Option (List Node) → Type 0
Removed from index ns none = (hash : ℕ) → ¬ HasNode index hash ns
Removed from index ns (some ms) =
    Rising from ms
    × (length ns ≡ suc (length ms))
    × ((hash : ℕ) → ¬ HasNode index hash ms)
    × ((at hash : ℕ) → at ≢ index → HasNode at hash ms ↔ HasNode at hash ns)

not-HasNode_before :
    (ns : List Node) (from at hash : ℕ) → at < from → Rising from ns → ¬ HasNode at hash ns
not-HasNode_before [] from at hash h r m = m
not-HasNode_before (n ∷ ns) from at hash h r (inl e) = omega (arith, e, r)
not-HasNode_before (n ∷ ns) from at hash h r (inr m) =
    not-HasNode_before ns (suc n.id) at hash (omega (arith, r)) r.2 m

Removed-cons :
    (from index : ℕ) (n : Node) (ns : List Node) (o : Option (List Node))
    → n.id ≢ index
    → Rising from (n ∷ ns)
    → Removed (suc n.id) index ns o
    → Removed from index (n ∷ ns) (elim o [ none ↦ none | some ms ↦ some (n ∷ ms) ])
Removed-cons from index n ns none ne r h = λ hash m. elim m [ inl e ↦ ne e.0 | inr k ↦ h hash k ]
Removed-cons from index n ns (some ms) ne r h = (
  (r.0, r.1, h.0),
  omega (arith, h.1),
  λ hash m. elim m [ inl e ↦ ne e.0 | inr k ↦ h.2 hash k ],
  λ at hash off. (
    elim [ inl e ↦ inl e | inr k ↦ inr ((h.3 at hash off).0 k) ],
    elim [ inl e ↦ inl e | inr k ↦ inr ((h.3 at hash off).1 k) ],
  ),
)

remove_first-Removed :
    (from index : ℕ) (ns : List Node)
    → Rising from ns
    → Removed from index ns (remove_first ns index)
unfolding remove_first
remove_first-Removed from index [] r = λ hash m. m
remove_first-Removed from index (n ∷ ns) r =
    rw (lt→ltb n.id 128 (omega (arith, r))) (elim (Bool-cases (n.id == index)) [
      | inl e ↦ rw e (
        Rising-weaken from (suc n.id) ns (omega (arith, r)) r.2,
        refl,
        λ hash m.
            not-HasNode_before ns (suc n.id) index hash (omega (arith, (==_iff n.id index).0 e)) r.2
              m,
        λ at hash off. (
          λ m. inr m,
          elim [ inl w ↦ absurd (off (sym w.0 ∙ (==_iff n.id index).0 e)) | inr m ↦ m ],
        ),
      )
      | inr e ↦ rw e (
          Removed-cons from index n ns (remove_first ns index) (λ w. ground (arith, e, w)) r
            (remove_first-Removed (suc n.id) index ns r.2))
    ])

-- What jekv_hash_erase answers, and the index behind it.
abbrev pub Erased : Hash → ℕ → Result (Unit {0}) × Hash → Type 0
Erased h index (ok _, h') =
    IsIndex h'
    × ((hash : ℕ) → ¬ HasNode index hash (nodes h'.hash_table))
    × ((at hash : ℕ)
        → at ≢ index
        → HasNode at hash (nodes h'.hash_table) ↔ HasNode at hash (nodes h.hash_table))
Erased h index (err c, h') =
    (c ≡ not_found) × (h' ≡ h) × ((hash : ℕ) → ¬ HasNode index hash (nodes h.hash_table))

-- In an index in order, erasing a slice takes out its node, keeps those of all other slices and
-- leaves an index in order; where the slice has no node the result is JEKV_ERR_NOT_FOUND and
-- nothing changes.
pub hash_erase-Erased : (h : Hash) (index : ℕ) → IsIndex h → Erased h index (hash_erase h index)
unfolding hash_erase
hash_erase-Erased h index v =
    erased (remove_first ns index) (remove_first-Removed 0 index ns v.rising)
  where
    ns : List Node
    ns = nodes h.hash_table

    erased :
        (o : Option (List Node))
        → Removed 0 index ns o
        → Erased h index (elim o [
          | none ↦ (err not_found, h)
          | some ms ↦ (ok tt, record h { hash_table = some ms; count = h.count - 1 })
        ])
    erased none gone = (refl, refl, gone)
    erased (some ms) gone = (
      record {
        counted = omega (arith, v, gone.1);
        fits = omega (arith, v);
        bounded = v.bounded;
        rising = gone.0;
      },
      gone.2,
      gone.3,
    )
