-- ===== src/HashMap/Distinct.antt =====
-- The representation invariant: no key stands twice in the list of entries.
use mesh_pad.Base.{
  ◌≡◌, refl, Bool, false, Option, none, some, List, [], ◌∷◌, HashKey, same_self, subst, Bool-cases,
  inl, inr, if◌then◌else◌, arith, ◌+◌, length, is_some,
}
use mesh_pad.HashMap.{
  HashMap, empty, find, put, without, filter_entries, get, insert, remove, retain, len,
}

-- What `retain` keeps of a looked-up value.
abbrev pub kept {ℓ} : {V : Type ℓ} → (V → Bool) → Option V → Option V
kept p none = none
kept p (some v) = if p v then some v else none

module _ {ℓ} {K V : Type ℓ} ⦃e : HashKey K⦄ where
  abbrev pub Keys : List (K × V) → Type ℓ
  Keys [] = Unit
  Keys ((k, v) ∷ m) = (find k m ≡ none) × Keys m

  pub record Distinct (m : HashMap K V) : Type ℓ where
    pub keys : Keys m.entries

  find-put-none :
      (k j : K) (v : V) (m : List (K × V))
      → find j m ≡ none
      → e.same j k ≡ false
      → find j (put k v m) ≡ none
  find-put-none k j v [] h d = ground (arith, e.same_iff k j, e.same_iff j k)
  find-put-none k j v ((i, w) ∷ m) h d =
      ground (
        arith,
        e.same_iff k j,
        e.same_iff j k,
        e.same_iff i j,
        e.same_iff i k,
        find-put-none k j v m,
      )

  put-Keys : (k : K) (v : V) (m : List (K × V)) → Keys m → Keys (put k v m)
  put-Keys k v [] h = (refl, tt)
  put-Keys k v ((j, w) ∷ m) h = elim (Bool-cases (e.same j k)) [
    | inl same ↦ rw same (subst (λ (i : K). find i m ≡ none) ((e.same_iff j k).0 same) h.0, h.1)
    | inr other ↦ rw other (find-put-none k j v m h.0 other, put-Keys k v m h.1)
  ]

  find-without-none : (k j : K) (m : List (K × V)) → find j m ≡ none → find j (without k m) ≡ none
  find-without-none k j [] h = refl
  find-without-none k j ((i, w) ∷ m) h = ground (arith, find-without-none k j m)

  without-Keys : (k : K) (m : List (K × V)) → Keys m → Keys (without k m)
  without-Keys k [] h = tt
  without-Keys k ((j, w) ∷ m) h = ground (arith, find-without-none k j m, without-Keys k m)

  find-filter_entries-none :
      (p : K → V → Bool) (j : K) (m : List (K × V))
      → find j m ≡ none
      → find j (filter_entries p m) ≡ none
  find-filter_entries-none p j [] h = refl
  find-filter_entries-none p j ((i, w) ∷ m) h = ground (arith, find-filter_entries-none p j m)

  filter_entries-Keys : (p : K → V → Bool) (m : List (K × V)) → Keys m → Keys (filter_entries p m)
  filter_entries-Keys p [] h = tt
  filter_entries-Keys p ((j, w) ∷ m) h =
      ground (arith, find-filter_entries-none p j m, filter_entries-Keys p m)

  find-filter_entries :
      (p : K → V → Bool) (k : K) (m : List (K × V))
      → Keys m
      → find k (filter_entries p m) ≡ kept (p k) (find k m)
  find-filter_entries p k [] h = refl
  find-filter_entries p k ((j, w) ∷ m) h = elim (Bool-cases (e.same j k)) [
    | inl same ↦
        let eq : j ≡ k = (e.same_iff j k).0 same in
        rw same (rw (← eq) ground (arith, find-filter_entries-none p j m, same_self j))
    | inr other ↦ rw other ground (arith, find-filter_entries p k m)
  ]

  pub Distinct-empty : Distinct (empty {K = K} {V = V})
  Distinct-empty = record { keys = tt }

  pub insert-Distinct : (m : HashMap K V) (k : K) (v : V) → Distinct m → Distinct (insert m k v)
  unfolding insert
  insert-Distinct m k v d = record { keys = put-Keys k v m.entries d.keys }

  pub remove-Distinct : (m : HashMap K V) (k : K) → Distinct m → Distinct (remove m k)
  unfolding remove
  remove-Distinct m k d = record { keys = without-Keys k m.entries d.keys }

  pub retain-Distinct : (p : K → V → Bool) (m : HashMap K V) → Distinct m → Distinct (retain p m)
  unfolding retain
  retain-Distinct p m d = record { keys = filter_entries-Keys p m.entries d.keys }

  pub get-retain :
      (p : K → V → Bool) (m : HashMap K V) (k : K)
      → Distinct m
      → get (retain p m) k ≡ kept (p k) (get m k)
  unfolding get retain
  get-retain p m k d = find-filter_entries p k m.entries d.keys

  len-put :
      (k : K) (v : V) (m : List (K × V))
      → length (put k v m) ≡ (if is_some (find k m) then length m else length m + 1)
  len-put k v [] = omega arith
  len-put k v ((j, w) ∷ m) = ground (arith, len-put k v m)

  -- An insertion adds an entry exactly when the key is new.
  pub len-insert :
      (m : HashMap K V) (k : K) (v : V)
      → len (insert m k v) ≡ (if is_some (get m k) then len m else len m + 1)
  unfolding get insert
  len-insert m k v = len-put k v m.entries
