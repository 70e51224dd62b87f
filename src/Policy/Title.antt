-- ===== src/Policy/Title.antt =====
-- The title that is sent to the platform.
use libcaffeine.Base.{
  ◌≤◌, ◌≡◌, sym, ap, ◌∙◌, Bool-cases, Option-cases, none_ne_some, inl, inr, arith, some,
}
use mathlib.Core.Path.{subst}
use mathlib.Core.Option.{some-injective}
use libcaffeine.Base.{[], ◌∷◌, length, take, length-take, take_all, ltb}
use libcaffeine.Base.Bytes.{Bytes}
use libcaffeine.Api.{Rating, rating_none, seventeen_plus}
use libcaffeine.Utils.{trim}
use libcaffeine.Policy.{
  annotate_title, annotated, max_title_length, default_title, seventeen_plus_tag, or_default,
  add_tag, resize,
}

resize-eq-take : (s : Bytes) → resize s ≡ take max_title_length s
unfolding resize
resize-eq-take s = elim (Bool-cases (ltb max_title_length (length s))) [
  | inl long ↦ rw long
  | inr short ↦ rw short (sym (take_all max_title_length s (ground arith)))
]

-- The tag that goes with a rating.
abbrev pub tag : Rating → Bytes
tag rating_none = []
tag seventeen_plus = seventeen_plus_tag

abbrev pub shown : Bytes → Bytes
shown [] = default_title
shown (c ∷ s) = c ∷ s

-- A title never has more than 255 bytes.
annotate_title-le :
    (title : Bytes) (rating : Rating) {r : Bytes}
    → annotate_title title rating ≡ some r
    → length r ≤ 255
unfolding annotate_title
annotate_title-le title rating {r} e = elim (Option-cases (trim title)) [
  | inl n ↦ absurd (none_ne_some (sym (ap (annotated rating) n) ∙ e))
  | inr (t, h) ↦
      subst (λ r. length r ≤ 255) (some-injective _ _ (sym (ap (annotated rating) h) ∙ e))
        (rw (resize-eq-take (add_tag rating (or_default t)))
          (omega (arith, length-take 255 (add_tag rating (or_default t)))))
]
