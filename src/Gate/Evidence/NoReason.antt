-- ===== src/Gate/Evidence/NoReason.antt =====
-- Where no reason is found: no test holds, and neither of two lists has one.
use rudp_bench.Common.{◌≡◌, ◌≢◌, refl, ap, Bool, true, false, List, [], ◌∷◌, ◌++◌}
use rudp_bench.Scenario.Judge.{note}
use rudp_bench.Gate.Evidence.{LossReason, Reasons, reasons, crashed, then_reasons, join_reasons}

pub note-nil {ℓ} :
    {A : Type ℓ} (b : Bool) (r : A) (rest : List A) → note b r rest ≡ [] → (b ≡ false) × (rest ≡ [])
note-nil true r rest h = cc
note-nil false r rest h = (refl, h)

pub append-nil_both {ℓ} : {A : Type ℓ} (a b : List A) → a ++ b ≡ [] → (a ≡ []) × (b ≡ [])
append-nil_both [] b h = (refl, h)
append-nil_both (x ∷ a) b h = cc

module _ {Real : Type 0} where
  pub reasons_eq : (a b : List (LossReason Real)) → reasons a ≡ reasons b → a ≡ b
  reasons_eq a b h = cc

  pub then_reasons-nil :
      (rs : List (LossReason Real)) (x : Reasons Real)
      → then_reasons rs x ≡ reasons []
      → (rs ≡ []) × (x ≡ reasons [])
  then_reasons-nil rs crashed h = cc
  then_reasons-nil rs (reasons rs') h =
      let (a, b) = append-nil_both rs rs' (reasons_eq (rs ++ rs') [] h) in (a, ap reasons b)

  pub join_reasons-nil :
      (x y : Reasons Real) → join_reasons x y ≡ reasons [] → (x ≡ reasons []) × (y ≡ reasons [])
  join_reasons-nil crashed y h = cc
  join_reasons-nil (reasons rs) y h = let (a, b) = then_reasons-nil rs y h in (ap reasons a, b)

  pub some_reason :
      (r : LossReason Real) (rs : List (LossReason Real)) → reasons (r ∷ rs) ≢ reasons []
  some_reason r rs h = cc
