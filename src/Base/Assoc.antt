-- ===== src/Base/Assoc.antt =====
-- `std::map` and `std::unordered_map` with text keys, as association lists: at most one entry is
-- found for a key. The order in which a map is iterated is the order of insertion here.
use Prim.Native.String.{String}
use mathlib.Core.Path.{◌≡◌, refl}
use mathlib.Core.List.{List, [], ◌∷◌}
use mathlib.Core.Option.{Option, none, some}
use native.Mathlib.Omega.{arith}
use text.Mathlib.Text.{◌==◌}
use text.Mathlib.TextEquality.{eq_iff}
use text.Mathlib.TextPositions.{eq_refl}
use qt_web_server_chat.Base.Tests.{if◌then◌else◌}

abbrev pub Dict {ℓ} : Type ℓ → Type ℓ
Dict V = List (String × V)

module _ {ℓ} {V : Type ℓ} where
  -- m[key] = value
  unfoldable pub insert : String → V → Dict V → Dict V
  insert key value ((first, held) ∷ rest) =
      if first == key then (key, value) ∷ rest else (first, held) ∷ insert key value rest
  insert key value [] = (key, value) ∷ []

  -- m.erase(key)
  unfoldable pub erase : String → Dict V → Dict V
  erase key [] = []
  erase key ((first, held) ∷ rest) =
      let kept = erase key rest in if first == key then kept else (first, held) ∷ kept

  -- m.find(key)
  unfoldable pub lookup : String → Dict V → Option V
  lookup key ((first, held) ∷ rest) = if first == key then some held else lookup key rest
  lookup key [] = none

  -- The value that m[key] reads: an absent key gets the default value first.
  unfoldable pub lookup_or : V → String → Dict V → V
  lookup_or default key entries = elim (lookup key entries) [ none ↦ default | some held ↦ held ]

  abbrev pub keys : Dict V → List String
  keys [] = []
  keys ((first, held) ∷ rest) = first ∷ keys rest

  pub lookup-erase :
      (key other : String) (entries : Dict V)
      → lookup other (erase key entries) ≡ (if key == other then none else lookup other entries)
  unfolding lookup erase
  lookup-erase key other ((first, held) ∷ rest) =
      ground
        (lookup-erase key other rest, arith, eq_iff first other, eq_iff key other, eq_iff first key)
  lookup-erase key other [] = ground arith

  pub lookup-insert :
      (key other : String) (value : V) (entries : Dict V)
      → lookup other (insert key value entries)
        ≡ (if key == other then some value else lookup other entries)
  unfolding insert lookup
  lookup-insert key other value ((first, held) ∷ rest) = ground (
    lookup-insert key other value rest,
    arith,
    eq_iff first other,
    eq_iff key other,
    eq_iff first key,
  )
  lookup-insert key other value [] = ground arith

module _ {ℓ} {V : Type ℓ} where
  pub lookup_or-none : (d : V) (k : String) (m : Dict V) → lookup k m ≡ none → lookup_or d k m ≡ d
  unfolding lookup_or
  lookup_or-none d k m h = rw (h, lookup_or)

  pub lookup_or-some :
      (d : V) (k : String) (m : Dict V) {v : V} → lookup k m ≡ some v → lookup_or d k m ≡ v
  unfolding lookup_or
  lookup_or-some d k m h = rw (h, lookup_or)

  pub lookup_or-insert :
      (d : V) (k j : String) (v : V) (m : Dict V)
      → lookup_or d j (insert k v m) ≡ (if k == j then v else lookup_or d j m)
  unfolding lookup_or
  lookup_or-insert d k j v m = ground (arith, lookup-insert k j v m)

  pub lookup_or-insert_self :
      (d : V) (k : String) (v : V) (m : Dict V) → lookup_or d k (insert k v m) ≡ v
  lookup_or-insert_self d k v m = rw (lookup_or-insert, eq_refl)

  pub lookup-insert_self : (k : String) (v : V) (m : Dict V) → lookup k (insert k v m) ≡ some v
  lookup-insert_self k v m = rw (lookup-insert, eq_refl)

pub lookup-empty {ℓ} : {V : Type ℓ} (k : String) → lookup {V = V} k [] ≡ none
unfolding lookup
lookup-empty k = refl

pub ruleset dict_laws = (lookup-empty, lookup-insert, lookup-erase)
