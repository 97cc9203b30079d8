-- ===== src/Examples/Trees.antt =====
-- JSON values as trees: a concrete function for each operation of the interface.
use mesh_pad.Base.{
  ℕ, ◌^◌, ◌<◌, ◌≡◌, refl, ap, String, Bool, Option, none, some, List, [], ◌∷◌, ltb, arith,
  if◌then◌else◌,
}
use mesh_pad.External.Json.{Json, field}

mutual
  pub data Tree : Type 0 where
    null : Tree
    bool : Bool → Tree
    number : ℕ → Tree
    string : String → Tree
    array : Items → Tree
    object : Members → Tree

  pub data Items : Type 0 where
    nil : Items
    cons : Tree → Items → Items

  pub data Members : Type 0 where
    end : Members
    member : String → Tree → Members → Members

abbrev pub items : List Tree → Items
items [] = nil
items (v ∷ vs) = cons v (items vs)

abbrev pub list_of : Items → List Tree
list_of nil = []
list_of (cons v vs) = v ∷ list_of vs

abbrev pub members : List (String × Tree) → Members
members [] = end
members ((k, v) ∷ fs) = member k v (members fs)

abbrev pub pairs_of : Members → List (String × Tree)
pairs_of end = []
pairs_of (member k v fs) = (k, v) ∷ pairs_of fs

pub list_of-items : (vs : List Tree) → list_of (items vs) ≡ vs
list_of-items [] = refl
list_of-items (v ∷ vs) = ap (◌∷◌ v) (list_of-items vs)

pub pairs_of-members : (fs : List (String × Tree)) → pairs_of (members fs) ≡ fs
pairs_of-members [] = refl
pairs_of-members ((k, v) ∷ fs) = ap (◌∷◌ (k, v)) (pairs_of-members fs)

abbrev pub tree_get : Tree → String → Option Tree
tree_get (object ms) k = field k (pairs_of ms)
tree_get _ k = none

abbrev pub tree_as_str : Tree → Option String
tree_as_str (string s) = some s
tree_as_str _ = none

abbrev pub tree_as_u64 : Tree → Option ℕ
tree_as_u64 (number n) = if ltb n (2 ^ 64) then some n else none
tree_as_u64 _ = none

abbrev pub tree_as_array : Tree → Option (List Tree)
tree_as_array (array vs) = some (list_of vs)
tree_as_array _ = none

abbrev pub tree_as_object : Tree → Option (List (String × Tree))
tree_as_object (object ms) = some (pairs_of ms)
tree_as_object _ = none

pub get_members :
    (fs : List (String × Tree)) (k : String) → field k (pairs_of (members fs)) ≡ field k fs
get_members fs k = ap (field k) (pairs_of-members fs)

pub u64_law : (n : ℕ) → n < 2 ^ 64 → tree_as_u64 (number n) ≡ some n
u64_law n h = ground arith

instance abbrev pub trees : Json
trees = record {
  Value = Tree;
  Fields = List (String × Tree);
  null = null;
  bool = bool;
  number = number;
  string = string;
  array = λ vs. array (items vs);
  object = λ fs. object (members fs);
  get = tree_get;
  as_str = tree_as_str;
  as_u64 = tree_as_u64;
  as_array = tree_as_array;
  as_object = tree_as_object;
  fields_of = λ fs. fs;
  get_field = λ fs k. field k fs;
  get-object = get_members;
  as_object-object = λ fs. ap some (pairs_of-members fs);
  get_field-fields_of = λ fs k. refl;
  as_str-string = λ s. refl;
  as_u64-number = u64_law;
  as_array-array = λ vs. ap some (list_of-items vs);
}
