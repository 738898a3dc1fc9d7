-- ===== src/Go/Dict.antt =====
-- Go's maps with string keys: `d[k]`, `d[k] = v`, and a `range` loop that selects keys.
-- Clients go by `dict_laws`; the order of a `range` loop is not observable in what they use.
use payment_gateway_router.Common.{
  String, ◌≡◌, refl, Bool, true, false, Option, none, some, List, [], ◌∷◌, arith, str_eq, eq_iff,
  if◌then◌else◌,
}

pub record Dict {ℓ} (V : Type ℓ) : Type ℓ where
  entries : List (String × V)

module _ {ℓ} {V : Type ℓ} where
  -- the first entry of a key counts
  find_entry : List (String × V) → String → Option V
  find_entry [] key = none
  find_entry (e ∷ more) key = if str_eq e.0 key then some e.1 else find_entry more key

  drop_key : List (String × V) → String → List (String × V)
  drop_key [] key = []
  drop_key (e ∷ more) key =
      let others = drop_key more key in if str_eq e.0 key then others else e ∷ others

  find_entry-drop_key :
      (entries : List (String × V)) (gone key : String)
      → find_entry (drop_key entries gone) key
        ≡ (if str_eq gone key then none else find_entry entries key)
  unfolding find_entry drop_key
  find_entry-drop_key [] gone key = ground arith
  find_entry-drop_key (e ∷ more) gone key =
      ground
        (arith, find_entry-drop_key more gone key, eq_iff e.0 gone, eq_iff e.0 key, eq_iff gone key)

module _ {ℓ} {V : Type ℓ} where
  unfoldable pub empty : Dict V
  empty = record { entries = [] }

  unfoldable pub get : Dict V → String → Option V
  unfolding find_entry
  get d key = find_entry d.entries key

  unfoldable pub put : Dict V → String → V → Dict V
  unfolding drop_key
  put d key v = record { entries = (key, v) ∷ drop_key d.entries key }

  -- `len(d) == 0`
  unfoldable pub is_empty : Dict V → Bool
  is_empty d = elim d.entries [ [] ↦ true | _ ↦ false ]

  pub get-put :
      (d : Dict V) (k j : String) (v : V)
      → get (put d k v) j ≡ (if str_eq k j then some v else get d j)
  unfolding get put
  get-put d k j v = ground (arith, find_entry-drop_key d.entries k j)

  pub get-is_empty : (d : Dict V) (k : String) → is_empty d ≡ true → get d k ≡ none
  unfolding get is_empty
  get-is_empty d k h = ground arith

  -- for k, v := range d { if p(v) { keys[k] = struct{}{} } }
  select : (V → Bool) → List (String × V) → Dict (Unit {0})
  select p [] = record { entries = [] }
  select p ((k, v) ∷ l) =
      let rest = (select p l).entries in
      record { entries = if p v then (k, tt) ∷ drop_key rest k else drop_key rest k }

  unfoldable pub keys_where : (V → Bool) → Dict V → Dict (Unit {0})
  unfolding select drop_key
  keys_where p d = select p d.entries

pub get-empty {ℓ} : {V : Type ℓ} (k : String) → get (empty {V = V}) k ≡ none
unfolding get empty
get-empty k = refl

abbrev pub passes {ℓ} : {V : Type ℓ} → (V → Bool) → Option V → Option (Unit {0})
passes p none = none
passes p (some v) = if p v then some tt else none

find_entry-select {ℓ} :
    {V : Type ℓ} (p : V → Bool) (l : List (String × V)) (k : String)
    → find_entry (select p l).entries k ≡ passes p (find_entry l k)
unfolding select find_entry
find_entry-select p [] k = refl
find_entry-select p ((j, v) ∷ l) k =
    ground (arith, find_entry-select p l k, find_entry-drop_key (select p l).entries j k)

pub get-keys_where {ℓ} :
    {V : Type ℓ} (p : V → Bool) (d : Dict V) (k : String)
    → get (keys_where p d) k ≡ passes p (get d k)
unfolding get keys_where
get-keys_where p d k = find_entry-select p d.entries k

pub ruleset dict_laws = (get-empty, get-put, get-keys_where)
