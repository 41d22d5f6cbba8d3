-- ===== src/Control/ProcKey.antt =====
-- orchestrator/control/server.go: the keys `fmt.Sprintf("%s#%d", role, procIndex)` of
-- `runState.procIndex`, as lists of code points, and that map.
use Prim.Native.Char.{code}
use rudp_bench.Common.{
  ℕ, zero, suc, ◌+◌, ◌/◌, ◌%◌, String, Bool, true, false, ◌&&◌, List, [], ◌∷◌, ◌++◌, Option, none,
  some, ℤ, pos_part, ltb, ◌==◌, if◌then◌else◌, ◌≡◌, refl, arith,
}

abbrev codes : String → List ℕ
codes String.[] = []
codes (String.◌∷◌ c s) = code c ∷ codes s

-- `%d` of a number, on fuel: each digit takes a round.
decimal_digits : ℕ → ℕ → List ℕ
decimal_digits zero n = []
decimal_digits (suc f) n =
    let more = decimal_digits f (n / 10) in (if ltb n 10 then [] else more) ++ (b'0' + n % 10) ∷ []

unfoldable pub decimal : ℕ → List ℕ
unfolding decimal_digits
decimal n = decimal_digits (suc n) n

-- The key is made only where `proc_index` is at least 0.
unfoldable pub proc_key : String → ℤ → List ℕ
proc_key role proc_index = codes role ++ b'#' ∷ decimal (pos_part proc_index)

unfoldable pub codes_eq : List ℕ → List ℕ → Bool
codes_eq [] [] = true
codes_eq (x ∷ xs) (y ∷ ys) = x == y && codes_eq xs ys
codes_eq _ _ = false

unfoldable pub lookup_key : List ℕ → List (List ℕ × ℕ) → Option ℕ
lookup_key k [] = none
lookup_key k ((j, v) ∷ m) = if codes_eq j k then some v else lookup_key k m

pub codes_eq_refl : (xs : List ℕ) → codes_eq xs xs ≡ true
unfolding codes_eq
codes_eq_refl [] = refl
codes_eq_refl (x ∷ xs) = ground (arith, codes_eq_refl xs)

pub codes_eq_sound : (xs ys : List ℕ) → codes_eq xs ys ≡ true → xs ≡ ys
unfolding codes_eq
codes_eq_sound [] [] h = refl
codes_eq_sound [] (y ∷ ys) h = cc
codes_eq_sound (x ∷ xs) [] h = cc
codes_eq_sound (x ∷ xs) (y ∷ ys) h = ground (arith, codes_eq_sound xs ys)

-- A new key in front hides no key that is there already.
pub lookup_key-cons :
    (k j : List ℕ) (v w : ℕ) (m : List (List ℕ × ℕ))
    → lookup_key k m ≡ none
    → lookup_key j m ≡ some w
    → lookup_key j ((k, v) ∷ m) ≡ some w
unfolding lookup_key
lookup_key-cons k j v w m fresh h = ground (arith, codes_eq_sound k j)

pub lookup_key_self :
    (k : List ℕ) (v : ℕ) (m : List (List ℕ × ℕ)) → lookup_key k ((k, v) ∷ m) ≡ some v
unfolding lookup_key
lookup_key_self k v m = ground (arith, codes_eq_refl k)

proc_key_client : proc_key "client" (ℤ.pos 120) ≡ codes "client#120"
unfolding proc_key decimal
proc_key_client = refl
