-- ===== src/Common/Maps.antt =====
-- A Go map as an association list with one entry for each key. A write to an old key replaces its
-- value where it stands, a write to a new key goes to the end.
use Prim.Native.Nat.{ℕ, ◌+◌}
use mathlib.Core.Path.{◌≡◌, refl}
use mathlib.Core.List.{List, [], ◌∷◌}
use mathlib.Core.Option.{Option, none, some}
use native.Mathlib.Omega.{arith}
use rudp_bench.Common.Tests.{◌==◌, if◌then◌else◌, Bool-cases, ==_iff}
use mathlib.Core.Logic.{inl, inr}
use mathlib.Core.Path.{subst}
use rudp_bench.Common.Lists.{length, All}

module _ {ℓ} {Value : Type ℓ} where
  -- `m[key]`, with the entry's presence.
  unfoldable pub lookup : ℕ → List (ℕ × Value) → Option Value
  lookup key [] = none
  lookup key (entry ∷ rest) = if entry.0 == key then some entry.1 else lookup key rest

  -- `m[key] = value`.
  unfoldable pub insert : ℕ → Value → List (ℕ × Value) → List (ℕ × Value)
  insert key value [] = (key, value) ∷ []
  insert key value (entry ∷ rest) =
      if entry.0 == key then (key, value) ∷ rest else entry ∷ insert key value rest

  -- A read after a write, at the same key or at another.
  pub lookup-insert :
      (key other : ℕ) (value : Value) (entries : List (ℕ × Value))
      → lookup other (insert key value entries)
        ≡ (if key == other then some value else lookup other entries)
  unfolding insert lookup
  lookup-insert key other value [] = refl
  lookup-insert key other value (e ∷ entries) =
      ground (arith, lookup-insert key other value entries)

  pub length-insert_new :
      (key : ℕ) (value : Value) (entries : List (ℕ × Value))
      → lookup key entries ≡ none
      → length (insert key value entries) ≡ length entries + 1
  unfolding insert lookup
  length-insert_new key value [] h = refl
  length-insert_new key value (e ∷ entries) h = ground (arith, length-insert_new key value entries)

  pub length-insert_old :
      (key : ℕ) (value old : Value) (entries : List (ℕ × Value))
      → lookup key entries ≡ some old
      → length (insert key value entries) ≡ length entries
  unfolding insert lookup
  length-insert_old key value old [] h = cc
  length-insert_old key value old (e ∷ entries) h =
      ground (arith, length-insert_old key value old entries)

  -- An entry that every pair passes is passed by what is found.
  pub lookup-All {κ} :
      (P : Value → Type κ) (key : ℕ) (found : Value) (entries : List (ℕ × Value))
      → All (λ e. P e.1) entries
      → lookup key entries ≡ some found
      → P found
  unfolding lookup
  lookup-All P key found [] a h = cc
  lookup-All P key found (e ∷ entries) a h = ground (arith, lookup-All P key found entries a.1)

-- What holds of every entry that can be found.
abbrev pub Each {ℓ κ} : {V : Type ℓ} → (ℕ → V → Type κ) → List (ℕ × V) → Type (ℓ ⊔ κ)
Each P m = (k : ℕ) (v : _) → lookup k m ≡ some v → P k v

some_eq {ℓ} : {V : Type ℓ} (a b : V) → some a ≡ some b → a ≡ b
some_eq a b h = cc

pub insert-Each {ℓ κ} :
    {V : Type ℓ} (P : ℕ → V → Type κ) (c : ℕ) (w : V) (m : List (ℕ × V))
    → Each P m
    → P c w
    → Each P (insert c w m)
insert-Each P c w m all here k v h = elim (Bool-cases (c == k)) [
  | inl e ↦
      subst (λ (x : ℕ). P x v) ((==_iff c k).0 e)
        (subst (P c) (some_eq w v (rw (lookup-insert c k w m, e) at h)) here)
  | inr e ↦ all k v (rw (lookup-insert c k w m, e) at h)
]

-- A fact about every pair of key and value holds of what is found.
pub All-Each {ℓ κ} :
    {V : Type ℓ} (P : ℕ → V → Type κ) (m : List (ℕ × V)) → All (λ e. P e.0 e.1) m → Each P m
unfolding lookup
All-Each P [] a k v h = cc
All-Each P ((i, w) ∷ m) a k v h = elim (Bool-cases (i == k)) [
  | inl e ↦ subst (λ (x : ℕ). P x v) ((==_iff i k).0 e) (subst (P i) (some_eq w v (rw e at h)) a.0)
  | inr e ↦ All-Each P m a.1 k v (rw e at h)
]
