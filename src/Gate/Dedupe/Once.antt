-- ===== src/Gate/Dedupe/Once.antt =====
-- Each text that is not empty stays, once.
use rudp_bench.Common.{
  ◌≡◌, refl, ◌∙◌, not, ◌&&◌, String, List, [], ◌∷◌, str_eq, str_eq-iff, if◌then◌else◌, arith, count,
  Bool-cases, inl, inr,
}
use rudp_bench.Gate.Dedupe.{is_seen, dedupe_from, dedupe_strings}

-- What is kept of a text: one where it is in the list, not empty and not seen before.
dedupe_from-count :
    (s : String) (strings seen : List String)
    → count (λ t. str_eq t s) (dedupe_from seen strings)
      ≡ (if is_seen s strings && not (str_eq s "") && not (is_seen s seen) then 1 else 0)
unfolding dedupe_from is_seen
dedupe_from-count s [] seen = refl
dedupe_from-count s (t ∷ strings) seen =
    let skipped = dedupe_from-count s strings seen in
    let kept = dedupe_from-count s strings (t ∷ seen) in
    elim (Bool-cases (str_eq t s)) [
      | inl e ↦
          let same : t ≡ s = (str_eq-iff t s).0 e in
          let empty : str_eq t "" ≡ str_eq s "" = rw same refl in
          let known : is_seen t seen ≡ is_seen s seen = rw same refl in
          ground (arith, skipped, kept, e, empty, known)
      | inr e ↦ ground (arith, skipped, kept, e)
    ]

-- A text is kept exactly once where it is among the texts and not empty, and never otherwise.
pub dedupe_strings_lem :
    (s : String) (strings : List String)
    → count (λ t. str_eq t s) (dedupe_strings strings)
      ≡ (if is_seen s strings && not (str_eq s "") then 1 else 0)
dedupe_strings_lem s strings = dedupe_from-count s strings [] ∙ (unfold is_seen in ground arith)
