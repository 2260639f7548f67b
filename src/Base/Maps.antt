-- ===== src/Base/Maps.antt =====
-- A map from texts as an association list: `HashMap<String, V>` and tables with a text key.
pub mod Keys
use codery.Base.Bools.{if◌then◌else◌, unwrap_or}
use codery.Base.Chars.{Text, ◌==◌, ==_iff}
use mathlib.Core.List.{List, [], ◌∷◌}
use mathlib.Core.Option.{Option, none, some}
use mathlib.Core.Path.{◌≡◌}
use native.Mathlib.Omega.{arith}

abbrev pub Assoc {ℓ} : Type ℓ → Type ℓ
Assoc V = List (Text × V)

module _ {ℓ} {V : Type ℓ} where
  -- The value at the first entry of a key.
  unfoldable pub lookup : Text → Assoc V → Option V
  lookup wanted (entry ∷ rest) = if entry.0 == wanted then some entry.1 else lookup wanted rest
  lookup wanted [] = none

  -- `HashMap::insert`: an entry of the key is replaced where it stands.
  unfoldable pub insert : Text → V → Assoc V → Assoc V
  insert key value (entry ∷ rest) =
      let kept = entry ∷ insert key value rest in
      if entry.0 == key then (entry.0, value) ∷ rest else kept
  insert key value [] = (key, value) ∷ []

  -- `HashMap::entry(k).or_insert(v)`: an entry of the key stays.
  unfoldable pub or_insert : Text → V → Assoc V → Assoc V
  or_insert key value (entry ∷ rest) =
      let kept = entry ∷ or_insert key value rest in if entry.0 == key then entry ∷ rest else kept
  or_insert key value [] = (key, value) ∷ []

  pub lookup-insert :
      (key other : Text) (value : V) (m : Assoc V)
      → lookup other (insert key value m) ≡ (if key == other then some value else lookup other m)
  unfolding lookup insert
  lookup-insert key other value (entry ∷ rest) = ground (
    arith,
    lookup-insert key other value rest,
    ==_iff entry.0 other,
    ==_iff key other,
    ==_iff entry.0 key,
  )
  lookup-insert key other value [] = ground arith

  pub lookup-or_insert :
      (key other : Text) (value : V) (m : Assoc V)
      → lookup other (or_insert key value m)
        ≡ (if key == other then some (unwrap_or (lookup key m) value) else lookup other m)
  unfolding lookup or_insert
  lookup-or_insert key other value (entry ∷ rest) = ground (
    arith,
    lookup-or_insert key other value rest,
    ==_iff entry.0 other,
    ==_iff key other,
    ==_iff entry.0 key,
  )
  lookup-or_insert key other value [] = ground arith
