-- ===== src/Redaction/Secrets.antt =====
-- What `ScanForSecrets` looks for.
use localcloud.Base.{
  Bool-cases, All, Occurs, contains_sound, contains_complete, Bytes, codes, to_lower, contains,
  String, ◌≡◌, refl, ◌↔◌, inl, inr, List, [], ◌∷◌,
}
use localcloud.Redaction.{Warning, patterns, scan_patterns, scan_for_secrets}

scan_patterns_nil_iff :
    (s : Bytes) (ps : List (String × Warning))
    → (scan_patterns s ps ≡ []) ↔ All (λ q. ¬ Occurs (codes q.0) s) ps
unfolding scan_patterns
scan_patterns_nil_iff s [] = (λ _. tt, λ _. refl)
scan_patterns_nil_iff s ((t, w) ∷ ps) = elim (Bool-cases (contains s (codes t))) [
  | inl e ↦ rw e (λ h. cc, λ h. absurd (h.0 (contains_sound s (codes t) e)))
  | inr e ↦ rw e (
    λ h. (
      (λ (before, after, e'). cc (e, contains_complete before (codes t) after s e')),
      (scan_patterns_nil_iff s ps).0 h,
    ),
    λ h. (scan_patterns_nil_iff s ps).1 h.1,
  )
]

-- `ScanForSecrets` warns of nothing exactly when none of its patterns stands in the text, whatever
-- the case of the text's letters.
pub scan_for_secrets_nil_iff :
    (s : Bytes) → (scan_for_secrets s ≡ []) ↔ All (λ q. ¬ Occurs (codes q.0) (to_lower s)) patterns
unfolding scan_for_secrets
scan_for_secrets_nil_iff s = scan_patterns_nil_iff (to_lower s) patterns

pub scan_for_secrets-empty : scan_for_secrets [] ≡ []
unfolding scan_for_secrets scan_patterns to_lower contains
scan_for_secrets-empty = refl
