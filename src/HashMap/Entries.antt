-- ===== src/HashMap/Entries.antt =====
-- What holds of every entry of a map, and keeps holding under the map's operations.
use mesh_pad.Base.{◌≡◌, Bool, some, List, [], ◌∷◌, HashKey, Bool-cases, inl, inr, arith, All, subst}
use mesh_pad.HashMap.{
  HashMap, empty, find, put, without, filter_entries, get, insert, remove, retain,
}

module _ {ℓ κ} {K V : Type ℓ} (P : K → V → Type κ) where
  abbrev Holds : K × V → Type κ
  Holds b = P b.0 b.1

  pub record Every (m : HashMap K V) : Type κ where
    pub all : All Holds m.entries

  pub Every-empty : Every empty
  Every-empty = record { all = tt }

  filter_entries-All :
      (p : K → V → Bool) (m : List (K × V)) → All Holds m → All Holds (filter_entries p m)
  filter_entries-All p [] h = tt
  filter_entries-All p ((j, w) ∷ m) h = ground (arith, filter_entries-All p m)

  pub retain-Every : (p : K → V → Bool) (m : HashMap K V) → Every m → Every (retain p m)
  unfolding retain
  retain-Every p m h = record { all = filter_entries-All p m.entries h.all }

module _ {ℓ κ} {K V : Type ℓ} ⦃e : HashKey K⦄ (P : K → V → Type κ) where
  put-All : (k : K) (v : V) (m : List (K × V)) → P k v → All (Holds P) m → All (Holds P) (put k v m)
  put-All k v [] p h = (p, tt)
  put-All k v ((j, w) ∷ m) p h = ground (arith, put-All k v m)

  without-All : (k : K) (m : List (K × V)) → All (Holds P) m → All (Holds P) (without k m)
  without-All k [] h = tt
  without-All k ((j, w) ∷ m) h = ground (arith, without-All k m)

  find-All : (k : K) (v : V) (m : List (K × V)) → All (Holds P) m → find k m ≡ some v → P k v
  find-All k v [] h q = absurd (cc)
  find-All k v ((j, w) ∷ m) h q = elim (Bool-cases (e.same j k)) [
    | inl same ↦
        let here : some w ≡ some v = (ground arith) in
        subst (λ (i : K). P i v) ((e.same_iff j k).0 same)
          (subst (λ (u : V). P j u) (ground arith) h.0)
    | inr other ↦ find-All k v m h.1 (ground arith)
  ]

  pub insert-Every : (m : HashMap K V) (k : K) (v : V) → P k v → Every P m → Every P (insert m k v)
  unfolding insert
  insert-Every m k v p h = record { all = put-All k v m.entries p h.all }

  pub remove-Every : (m : HashMap K V) (k : K) → Every P m → Every P (remove m k)
  unfolding remove
  remove-Every m k h = record { all = without-All k m.entries h.all }

  pub get-Every : (m : HashMap K V) (k : K) (v : V) → Every P m → get m k ≡ some v → P k v
  unfolding get
  get-Every m k v h q = find-All k v m.entries h.all q

module _ {ℓ κ} {K V : Type ℓ} {P Q : K → V → Type κ}
    (weaken : (k : K) (v : V) → P k v → Q k v) where
  All-weaken : (m : List (K × V)) → All (Holds P) m → All (Holds Q) m
  All-weaken [] h = tt
  All-weaken ((k, v) ∷ m) h = (weaken k v h.0, All-weaken m h.1)

  pub Every-weaken : {m : HashMap K V} → Every P m → Every Q m
  Every-weaken {m} h = record { all = All-weaken m.entries h.all }
