-- ===== src/HashMap/Tally.antt =====
-- Sums over the entries of a map, for counting what is pending.
use mesh_pad.Base.{
  ℕ, ◌+◌, ◌≡◌, refl, ap, none, some, List, [], ◌∷◌, HashKey, Bool-cases, inl, inr, arith, same_self,
}
use mesh_pad.HashMap.{HashMap, find, put, without, get, insert, remove}
use mesh_pad.HashMap.Distinct.{Keys, Distinct}

module _ {ℓ} {K V : Type ℓ} where
  abbrev sum_entries : (V → ℕ) → List (K × V) → ℕ
  sum_entries f [] = 0
  sum_entries f ((k, v) ∷ m) = f v + sum_entries f m

  unfoldable pub tally : (V → ℕ) → HashMap K V → ℕ
  tally f m = sum_entries f m.entries

module _ {ℓ} {K V : Type ℓ} ⦃e : HashKey K⦄ (f : V → ℕ) where
  sum_entries-put :
      (k : K) (v : V) (m : List (K × V))
      → find k m ≡ none
      → sum_entries f (put k v m) ≡ sum_entries f m + f v
  sum_entries-put k v [] h = omega arith
  sum_entries-put k v ((j, w) ∷ m) h = ground (arith, sum_entries-put k v m)

  without_absent : (k : K) (m : List (K × V)) → find k m ≡ none → without k m ≡ m
  without_absent k [] h = refl
  without_absent k ((j, w) ∷ m) h = ground (arith, without_absent k m)

  sum_entries-without :
      (k : K) (v : V) (m : List (K × V))
      → Keys m
      → find k m ≡ some v
      → sum_entries f (without k m) + f v ≡ sum_entries f m
  sum_entries-without k v [] d h = cc
  sum_entries-without k v ((j, w) ∷ m) d h = elim (Bool-cases (e.same j k)) [
    | inl same ↦
        let eq : j ≡ k = (e.same_iff j k).0 same in
        ground (arith, ap (λ (i : K). find i m) eq, without_absent k m)
    | inr other ↦ ground (arith, sum_entries-without k v m)
  ]

  -- A new entry adds its share.
  pub tally-insert :
      (m : HashMap K V) (k : K) (v : V) → get m k ≡ none → tally f (insert m k v) ≡ tally f m + f v
  unfolding tally get insert
  tally-insert m k v h = sum_entries-put k v m.entries h

  -- A removal takes away the share of the entry that was there.
  pub tally-remove :
      (m : HashMap K V) (k : K) (v : V)
      → Distinct m
      → get m k ≡ some v
      → tally f (remove m k) + f v ≡ tally f m
  unfolding tally get remove
  tally-remove m k v d h = sum_entries-without k v m.entries d.keys h

  sum_entries-nothing : (m : List (K × V)) → ((k : K) → find k m ≡ none) → sum_entries f m ≡ 0
  sum_entries-nothing [] h = refl
  sum_entries-nothing ((k, v) ∷ m) h = ground (arith, h k, same_self k)

  pub tally-nothing : (m : HashMap K V) → ((k : K) → get m k ≡ none) → tally f m ≡ 0
  unfolding tally get
  tally-nothing m h = sum_entries-nothing m.entries h
