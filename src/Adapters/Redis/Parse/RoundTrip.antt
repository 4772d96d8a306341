-- ===== src/Adapters/Redis/Parse/RoundTrip.antt =====
-- The parser reads back what is quoted by backslashes, and its fuel suffices.
use localcloud.Base.{
  eqb, if◌then◌else◌, Bool-cases, Option-cases, length, length-append, Bytes, ℕ, zero, suc, ◌≤◌,
  ◌<◌, ◌≡◌, refl, sym, ap, ◌∙◌, inl, inr, false, ◌||◌, some, List, [], ◌∷◌, ◌++◌, arith,
}
use mathlib.Core.List.{reverse, reverse-append, append_assoc, append-nil}
use localcloud.Adapters.Redis.Parse.{
  quote_mark, backslash, scan_quoted, after_quote, quoted_strings, parse_quoted_strings,
}

-- What a writer puts between quotes for `s`.
pub escape : Bytes → Bytes
escape [] = []
escape (c ∷ s) =
    if eqb c quote_mark || eqb c backslash then backslash ∷ c ∷ escape s else c ∷ escape s

-- Quoted strings with spaces between them.
pub render : List Bytes → Bytes
unfolding escape
render [] = []
render (p ∷ []) = quote_mark ∷ (escape p ++ (quote_mark ∷ []))
render (p ∷ q ∷ ps) = quote_mark ∷ (escape p ++ (quote_mark ∷ 32 ∷ render (q ∷ ps)))

abbrev push : Bytes → Bytes → Bytes
push [] buf = buf
push (c ∷ s) buf = push s (c ∷ buf)

reverse-push : (s buf : Bytes) → reverse (push s buf) ≡ reverse buf ++ s
reverse-push [] buf = sym (append-nil (reverse buf))
reverse-push (c ∷ s) buf =
    reverse-push s (c ∷ buf)
    ∙ ap (λ l. l ++ s) (reverse-append (c ∷ []) buf)
    ∙ append_assoc (reverse buf) (c ∷ []) s

scan_plain :
    (c : ℕ) (t buf : Bytes)
    → eqb c quote_mark ≡ false
    → eqb c backslash ≡ false
    → scan_quoted (c ∷ t) buf ≡ scan_quoted t (c ∷ buf)
unfolding scan_quoted
scan_plain c [] buf e f = rw e
scan_plain c (d ∷ t) buf e f = rw (e, f)

scan_close : (rest buf : Bytes) → scan_quoted (quote_mark ∷ rest) buf ≡ some (buf, rest)
unfolding scan_quoted
scan_close [] buf = refl
scan_close (d ∷ rest) buf = refl

scan_escaped :
    (d : ℕ) (t buf : Bytes) → scan_quoted (backslash ∷ d ∷ t) buf ≡ scan_quoted t (d ∷ buf)
unfolding scan_quoted
scan_escaped d t buf = refl

scan-escape :
    (s rest buf : Bytes)
    → scan_quoted (escape s ++ (quote_mark ∷ rest)) buf ≡ some (push s buf, rest)
unfolding escape
scan-escape [] rest buf = scan_close rest buf
scan-escape (c ∷ s) rest buf = elim (Bool-cases (eqb c quote_mark || eqb c backslash)) [
  | inl e ↦ rw e (scan_escaped c _ buf ∙ scan-escape s rest (c ∷ buf))
  | inr e ↦ rw e (scan_plain c _ buf (ground arith) (ground arith) ∙ scan-escape s rest (c ∷ buf))
]

-- One round of the outer loop.
quoted_strings-escape :
    (f : ℕ) (p rest : Bytes)
    → quoted_strings (suc f) (quote_mark ∷ (escape p ++ (quote_mark ∷ rest)))
      ≡ p ∷ quoted_strings f rest
unfolding quoted_strings after_quote
quoted_strings-escape f p rest =
    rw (scan-escape p rest [], quoted_strings)
      (ap (λ l. l ∷ quoted_strings f rest) (reverse-push p []))

quoted_strings-space : (f : ℕ) (s : Bytes) → quoted_strings f (32 ∷ s) ≡ quoted_strings f s
unfolding quoted_strings after_quote
quoted_strings-space zero s = refl
quoted_strings-space (suc f) s = refl

quoted_strings-nil : (f : ℕ) → quoted_strings f [] ≡ []
unfolding quoted_strings after_quote
quoted_strings-nil zero = refl
quoted_strings-nil (suc f) = refl

quoted_strings-render :
    (f : ℕ) (ps : List Bytes) → length ps ≤ f → quoted_strings f (render ps) ≡ ps
unfolding render
quoted_strings-render f [] h = quoted_strings-nil f
quoted_strings-render zero (p ∷ ps) h = absurd (omega arith)
quoted_strings-render (suc f) (p ∷ []) h =
    quoted_strings-escape f p [] ∙ ap (λ l. p ∷ l) (quoted_strings-nil f)
quoted_strings-render (suc f) (p ∷ q ∷ ps) h =
    quoted_strings-escape f p (32 ∷ render (q ∷ ps))
    ∙ ap (λ l. p ∷ l)
        (quoted_strings-space f (render (q ∷ ps)) ∙ quoted_strings-render f (q ∷ ps) (omega arith))

length-render : (ps : List Bytes) → length ps ≤ length (render ps)
unfolding render
length-render [] = omega arith
length-render (p ∷ []) = omega (arith, length-append (escape p) (quote_mark ∷ []))
length-render (p ∷ q ∷ ps) =
    omega
      (arith, length-append (escape p) (quote_mark ∷ 32 ∷ render (q ∷ ps)), length-render (q ∷ ps))

-- Quoted strings in which quotes and backslashes are escaped are read back, whatever bytes they
-- hold.
pub parse_quoted_strings-render : (ps : List Bytes) → parse_quoted_strings (render ps) ≡ ps
unfolding parse_quoted_strings
parse_quoted_strings-render ps = quoted_strings-render (length (render ps)) ps (length-render ps)

length-after_quote : (s : Bytes) (t : Bytes) → after_quote s ≡ some t → length t < length s
unfolding after_quote
length-after_quote [] t e = cc
length-after_quote (c ∷ s) t e = elim (Bool-cases (eqb c quote_mark)) [
  | inl q ↦ ground (arith, e, q)
  | inr q ↦ ground (arith, length-after_quote s t, e, q)
]

length-scan_quoted :
    (s buf b rest : Bytes) → scan_quoted s buf ≡ some (b, rest) → length rest < length s
unfolding scan_quoted
length-scan_quoted [] buf b rest e = cc
length-scan_quoted (c ∷ []) buf b rest e = ground arith
length-scan_quoted (c ∷ d ∷ s) buf b rest e =
    ground
      (arith, length-scan_quoted s (d ∷ buf) b rest, length-scan_quoted (d ∷ s) (c ∷ buf) b rest)

-- Any fuel from the length of the line on gives the same strings, so that the parser never stops
-- for want of fuel.
pub quoted_strings_enough :
    (f g : ℕ) (s : Bytes) → length s ≤ f → length s ≤ g → quoted_strings f s ≡ quoted_strings g s
unfolding quoted_strings
quoted_strings_enough zero zero s hf hg = refl
quoted_strings_enough zero (suc g) [] hf hg = sym (quoted_strings-nil (suc g))
quoted_strings_enough zero (suc g) (c ∷ s) hf hg = absurd (omega arith)
quoted_strings_enough (suc f) zero [] hf hg = quoted_strings-nil (suc f)
quoted_strings_enough (suc f) zero (c ∷ s) hf hg = absurd (omega arith)
quoted_strings_enough (suc f) (suc g) s hf hg = elim (Option-cases (after_quote s)) [
  | inl e ↦ rw (e, quoted_strings)
  | inr (t, e) ↦ elim (Option-cases (scan_quoted t [])) [
    | inl e' ↦ rw (e, e', quoted_strings)
    | inr ((b, rest), e') ↦
        rw (e, e', quoted_strings)
          (ap (λ l. reverse b ∷ l)
            (quoted_strings_enough f g rest
              (omega (arith, length-after_quote s t e, length-scan_quoted t [] b rest e'))
              (omega (arith, length-after_quote s t e, length-scan_quoted t [] b rest e'))))
  ]
]
