-- ===== src/HashMap.antt =====
-- std's `HashMap`, as the list of its entries. The order in which the source meets the entries of a
-- map is the order of this list, and the theorems are about every list.
pub mod Laws
pub mod Distinct
pub mod Tally
pub mod Entries
use mesh_pad.Base.{
  ℕ, Bool, Option, none, some, List, [], ◌∷◌, map, HashKey, ◌==◌, if◌then◌else◌, length, is_some,
}

pub record HashMap {ℓ} (K V : Type ℓ) : Type ℓ where
  pub entries : List (K × V)

module _ {ℓ} {K V : Type ℓ} where
  abbrev pub empty : HashMap K V
  empty = record { entries = [] }

  -- HashMap::len
  abbrev pub len : HashMap K V → ℕ
  len m = length m.entries

  -- HashMap::values
  abbrev pub values : HashMap K V → List V
  values m = map (λ (b : K × V). b.1) m.entries

  abbrev filter_entries : (K → V → Bool) → List (K × V) → List (K × V)
  filter_entries p [] = []
  filter_entries p ((k, v) ∷ m) =
      let rest = filter_entries p m in if p k v then (k, v) ∷ rest else rest

  -- HashMap::retain
  unfoldable pub retain : (K → V → Bool) → HashMap K V → HashMap K V
  retain p m = record { entries = filter_entries p m.entries }

module _ {ℓ} {K V : Type ℓ} ⦃e : HashKey K⦄ where
  abbrev pub find : K → List (K × V) → Option V
  find k [] = none
  find k ((j, v) ∷ m) = if j == k then some v else find k m

  abbrev pub put : K → V → List (K × V) → List (K × V)
  put k v [] = (k, v) ∷ []
  put k v ((j, w) ∷ m) = if j == k then (k, v) ∷ m else (j, w) ∷ put k v m

  abbrev pub without : K → List (K × V) → List (K × V)
  without k [] = []
  without k ((j, w) ∷ m) = let rest = without k m in if j == k then rest else (j, w) ∷ rest

  -- HashMap::get
  unfoldable pub get : HashMap K V → K → Option V
  get m k = find k m.entries

  -- HashMap::contains_key
  abbrev pub contains_key : HashMap K V → K → Bool
  contains_key m k = is_some (get m k)

  -- HashMap::insert
  unfoldable pub insert : HashMap K V → K → V → HashMap K V
  insert m k v = record { entries = put k v m.entries }

  -- HashMap::remove, whose result is `get` before the call
  unfoldable pub remove : HashMap K V → K → HashMap K V
  remove m k = record { entries = without k m.entries }
