-- ===== src/Spans/Map.antt =====
-- `BTreeMap<u64, V>` as spans.rs uses it: its entries in the order of their keys.
use vmdk_rs.Base.{
  ℕ, Bool, true, false, List, [], ◌∷◌, Option, none, some, compare, Ordering, ltb, leb,
  if◌then◌else◌,
}

abbrev pub SpanMap {ℓ} : Type ℓ → Type ℓ
SpanMap V = List (ℕ × V)

module _ {ℓ} {V : Type ℓ} where
  abbrev pub or_else : Option (ℕ × V) → Option (ℕ × V) → Option (ℕ × V)
  or_else none d = d
  or_else (some x) d = some x

  -- `map.range(..=k).last()`
  unfoldable pub floor : ℕ → SpanMap V → Option (ℕ × V)
  floor k [] = none
  floor k ((b, v) ∷ m) = if leb b k then or_else (floor k m) (some (b, v)) else none

  -- `map.range((Excluded(k), Included(u64::MAX))).next()`
  unfoldable pub above : ℕ → SpanMap V → Option (ℕ × V)
  above k [] = none
  above k ((b, v) ∷ m) = if ltb k b then some (b, v) else above k m

  -- `map.insert(k, v)`: an entry with the same key is replaced.
  unfoldable pub insert : ℕ → V → SpanMap V → SpanMap V
  insert k v [] = (k, v) ∷ []
  insert k v ((b, w) ∷ m) = elim (compare k b) [
    | Ordering.lt ↦ (k, v) ∷ (b, w) ∷ m
    | Ordering.eq ↦ (k, v) ∷ m
    | Ordering.gt ↦ (b, w) ∷ insert k v m
  ]

  -- `map.remove(&k)`
  unfoldable pub remove : ℕ → SpanMap V → SpanMap V
  remove k [] = []
  remove k ((b, w) ∷ m) = elim (compare k b) [
    | Ordering.lt ↦ (b, w) ∷ m
    | Ordering.eq ↦ m
    | Ordering.gt ↦ (b, w) ∷ remove k m
  ]

  -- `map.is_empty()`
  abbrev pub is_empty : SpanMap V → Bool
  is_empty [] = true
  is_empty (x ∷ m) = false

-- How one round of the `loop` in `insert_span` and in `remove_span` ends: with a `return`, or with
-- the `sbeg` of the next round.
pub data Step {ℓ} (A : Type ℓ) : Type ℓ where
  done : A → Step A
  again : ℕ → A → Step A
