-- ===== src/Common/Keyed.antt =====
-- A Go map with keys of any type, as an association list: a write to an old key replaces its value
-- where it stands, a write to a new key goes to the end.
use mathlib.Core.Path.{◌≡◌, refl}
use mathlib.Core.Logic.{inl, inr}
use mathlib.Core.Bool.{Bool, true, false}
use mathlib.Core.List.{List, [], ◌∷◌}
use mathlib.Core.Option.{Option, none, some}
use rudp_bench.Common.Tests.{if◌then◌else◌, Bool-cases}

module _ {ℓ κ} {Key : Type ℓ} {Value : Type κ} (same : Key → Key → Bool) where
  unfoldable pub find : Key → List (Key × Value) → Option Value
  find k [] = none
  find k ((k', v) ∷ m) = if same k' k then some v else find k m

  unfoldable pub put : Key → Value → List (Key × Value) → List (Key × Value)
  put k v [] = (k, v) ∷ []
  put k v ((k', w) ∷ m) = if same k' k then (k, v) ∷ m else (k', w) ∷ put k v m

  pub find-put_same :
      (k : Key) (v : Value) (m : List (Key × Value))
      → (same k k ≡ true)
      → find k (put k v m) ≡ some v
  unfolding find put
  find-put_same k v [] h = rw h refl
  find-put_same k v ((k', w) ∷ m) h = elim (Bool-cases (same k' k)) [
    | inl e ↦ rw e (unfold find in rw h refl)
    | inr e ↦ rw e (unfold find in rw e (find-put_same k v m h))
  ]

  -- The other keys keep their values, where equal keys are equal to the same keys.
  pub find-put_other :
      (k k' : Key) (v : Value) (m : List (Key × Value))
      → ((a : Key) → same a k ≡ true → same a k' ≡ false)
      → (same k k ≡ true)
      → find k' (put k v m) ≡ find k' m
  unfolding find put
  find-put_other k k' v [] h s = rw (h k s) refl
  find-put_other k k' v ((a, w) ∷ m) h s = elim (Bool-cases (same a k)) [
    | inl e ↦ rw e (unfold find in rw (h k s, h a e) refl)
    | inr e ↦ rw e (unfold find in rw (find-put_other k k' v m h s) refl)
  ]
