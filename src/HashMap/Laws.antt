-- ===== src/HashMap/Laws.antt =====
-- Lookups after the map's operations, in `if` form.
use mesh_pad.Base.{
  ◌≡◌, refl, none, some, List, [], ◌∷◌, HashKey, same_self, same_ne, ◌==◌, ◌≢◌, if◌then◌else◌,
  arith,
}
use mesh_pad.HashMap.{HashMap, empty, find, put, without, get, insert, remove}

module _ {ℓ} {K V : Type ℓ} ⦃e : HashKey K⦄ where
  find-put :
      (k j : K) (v : V) (m : List (K × V))
      → find j (put k v m) ≡ (if k == j then some v else find j m)
  find-put k j v [] = refl
  find-put k j v ((i, w) ∷ m) =
      ground (arith, e.same_iff k j, e.same_iff i k, e.same_iff i j, find-put k j v m)

  find-without :
      (k j : K) (m : List (K × V)) → find j (without k m) ≡ (if k == j then none else find j m)
  find-without k j [] = ground arith
  find-without k j ((i, w) ∷ m) =
      ground (arith, e.same_iff k j, e.same_iff i k, e.same_iff i j, find-without k j m)

  pub get-empty : (k : K) → get (empty {V = V}) k ≡ none
  unfolding get
  get-empty k = refl

  pub get-insert :
      (m : HashMap K V) (k j : K) (v : V)
      → get (insert m k v) j ≡ (if k == j then some v else get m j)
  unfolding get insert
  get-insert m k j v = find-put k j v m.entries

  pub get-insert_self : (m : HashMap K V) (k : K) (v : V) → get (insert m k v) k ≡ some v
  get-insert_self m k v = rw (get-insert, same_self k)

  pub get-insert_ne : (m : HashMap K V) (k j : K) (v : V) → k ≢ j → get (insert m k v) j ≡ get m j
  get-insert_ne m k j v h = rw (get-insert, same_ne k j h)

  pub get-remove :
      (m : HashMap K V) (k j : K) → get (remove m k) j ≡ (if k == j then none else get m j)
  unfolding get remove
  get-remove m k j = find-without k j m.entries

pub ruleset map_laws = (get-empty, get-insert, get-remove)
