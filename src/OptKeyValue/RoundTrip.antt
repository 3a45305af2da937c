-- ===== src/OptKeyValue/RoundTrip.antt =====
-- An option that is printed and parsed again, and the reverse.
use cgraomp.Prelude.{
  ◌≡◌, ◌≢◌, ◌⊎◌, inl, inr, refl, sym, ap, subst, ◌∙◌, true, false, List, [], ◌∷◌, ◌++◌, arith, eqb,
  All, Bool-cases,
}
use mathlib.Core.List.{append_assoc, append-nil}
use cgraomp.OptKeyValue.{
  Text, OptKeyValue, equals_sign, split, drop_empty_suffix, tokens_of, of_tokens, parse,
  new_key_value, print,
}

-- There is no '=' in a text.
abbrev pub IsPlain : Text → Type 0
IsPlain s = All (λ c. eqb c equals_sign ≡ false) s

split-plain : (s : Text) → IsPlain s → split s ≡ (s, [])
unfolding split
split-plain [] h = refl
split-plain (c ∷ cs) h = rw (h.0, split-plain cs h.1) refl

split-concat :
    (s rest : Text)
    → IsPlain s
    → split (s ++ equals_sign ∷ rest) ≡ (s, (split rest).0 ∷ (split rest).1)
unfolding split
split-concat [] rest h = refl
split-concat (c ∷ cs) rest h = rw (h.0, split-concat cs rest h.1) refl

parse_of :
    (s token : Text) (tokens : List Text)
    → split s ≡ (token, tokens)
    → parse s ≡ of_tokens (token ∷ drop_empty_suffix tokens)
unfolding parse tokens_of
parse_of s token tokens h = rw (tokens_of, h) refl

-- Each text behind an '='.
joined : List Text → Text
joined [] = []
joined (token ∷ tokens) = equals_sign ∷ token ++ joined tokens

-- A pair of a key and a value that is not empty, both without an equals sign, is the result of
-- parsing its printed form, and also of parsing that form with one more equals sign behind it.
pub parse-print :
    (key value : Text)
    → IsPlain key
    → IsPlain value
    → value ≢ []
    → (parse (print (new_key_value key value)) ≡ new_key_value key value)
      × (parse (print (new_key_value key value) ++ equals_sign ∷ []) ≡ new_key_value key value)
unfolding print new_key_value drop_empty_suffix of_tokens split
parse-print key [] p q nonempty = absurd (nonempty refl)
parse-print key (c ∷ cs) p q nonempty =
    let value : Text = c ∷ cs in
    let once = split-concat key value p ∙ rw (split-plain value q) refl in
    let twice =
      split-concat key (value ++ equals_sign ∷ []) p ∙ rw (split-concat value [] q) refl in
    (
      parse_of (key ++ equals_sign ∷ value) key (value ∷ []) once,
      rw (append_assoc key (equals_sign ∷ value) (equals_sign ∷ []))
          (parse_of (key ++ equals_sign ∷ (value ++ equals_sign ∷ [])) key (value ∷ [] ∷ []) twice),
    )

-- What the texts are that a text was split into.
split-print :
    (s : Text)
    → IsPlain (split s).0 × All IsPlain (split s).1 × (s ≡ (split s).0 ++ joined (split s).1)
unfolding split joined
split-print [] = (tt, tt, refl)
split-print (c ∷ cs) =
    let (plain, others, same) = split-print cs in
    elim (Bool-cases (eqb c equals_sign)) [
      | inl mark ↦
          let at : c ≡ equals_sign = ground arith in
          rw (at, split) (tt, (plain, others), ap (λ s. equals_sign ∷ s) same)
      | inr other ↦ rw (split, other) ((other, plain), others, ap (λ s. c ∷ s) same)
    ]

-- A text that is printed for an option, with or without one more '='.
abbrev pub IsPrinted : Text → OptKeyValue → Type 0
IsPrinted s o =
    IsPlain o.key × IsPlain o.value × ((s ≡ print o) ⊎ (s ≡ print o ++ equals_sign ∷ []))

of_tokens-IsPrinted :
    (s token : Text) (tokens : List Text)
    → IsPlain token
    → All IsPlain tokens
    → s ≡ token ++ joined tokens
    → (of_tokens (token ∷ drop_empty_suffix tokens)).valid ≡ true
    → IsPrinted s (of_tokens (token ∷ drop_empty_suffix tokens))
unfolding of_tokens drop_empty_suffix joined print new_key_value
of_tokens-IsPrinted s token [] p ps same h = cc
of_tokens-IsPrinted s token ([] ∷ []) p ps same h = cc
of_tokens-IsPrinted s token ((c ∷ cs) ∷ []) p ps same h =
    (p, ps.0, inl (same ∙ rw (append-nil cs) refl))
of_tokens-IsPrinted s token ([] ∷ [] ∷ []) p ps same h =
    (p, tt, inr (same ∙ sym (append_assoc token (equals_sign ∷ []) (equals_sign ∷ []))))
of_tokens-IsPrinted s token ((c ∷ cs) ∷ [] ∷ []) p ps same h =
    (p, ps.0, inr (same ∙ sym (append_assoc token (equals_sign ∷ c ∷ cs) (equals_sign ∷ []))))
of_tokens-IsPrinted s token ([] ∷ (d ∷ ds) ∷ []) p ps same h = cc
of_tokens-IsPrinted s token ((c ∷ cs) ∷ (d ∷ ds) ∷ []) p ps same h = cc
of_tokens-IsPrinted s token ([] ∷ [] ∷ x ∷ tokens) p ps same h = cc
of_tokens-IsPrinted s token ([] ∷ (d ∷ ds) ∷ x ∷ tokens) p ps same h = cc
of_tokens-IsPrinted s token ((c ∷ cs) ∷ [] ∷ x ∷ tokens) p ps same h = cc
of_tokens-IsPrinted s token ((c ∷ cs) ∷ (d ∷ ds) ∷ x ∷ tokens) p ps same h = cc

-- A text that is parsed as valid is the printed form of the result, or that form with one more
-- equals sign behind it, and there is no equals sign in the key or in the value.
pub parse-IsPrinted : (s : Text) → (parse s).valid ≡ true → IsPrinted s (parse s)
parse-IsPrinted s h =
    let (plain, others, same) = split-print s in
    let e = parse_of s (split s).0 (split s).1 refl in
    subst (IsPrinted s) (sym e)
      (of_tokens-IsPrinted s (split s).0 (split s).1 plain others same (rw e at h))
