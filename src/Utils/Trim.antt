-- ===== src/Utils/Trim.antt =====
-- What `trim` keeps of a string, and where it is not defined.
use libcaffeine.Base.{
  ℕ, ltb, if_true, if_false, ◌≤◌, ◌≡◌, refl, sym, ap, ◌∙◌, Bool, true, false, Bool-cases, inl, inr,
  ◌⊎◌, arith, none, some,
}
use libcaffeine.Base.{[], ◌∷◌, ◌++◌, append_assoc, all, ◌&&◌}
use libcaffeine.Base.Bytes.{Bytes}
use libcaffeine.Base.Int32.{◌>>=◌}
use libcaffeine.Utils.{is_blank, is_space, skip_space, ltrim, rtrim, reversed, trim}
use mathlib.Core.List.{reverse, reverse-append, reverse-reverse, reverse-cons}

abbrev pub begins_with_blank : Bytes → Bool
begins_with_blank [] = false
begins_with_blank (c ∷ s) = is_blank c

-- No space at either end.
pub record IsTrimmed (s : Bytes) : Type 0 where
  pub front : begins_with_blank s ≡ false
  pub back : begins_with_blank (reverse s) ≡ false

-- `mid` is what is left of `s` when spaces are taken off both ends.
pub record Trims (s mid : Bytes) : Type 0 where
  pub before : Bytes
  pub after : Bytes
  pub whole : s ≡ before ++ (mid ++ after)
  pub before_blank : all is_blank before ≡ true
  pub after_blank : all is_blank after ≡ true
  pub trimmed : IsTrimmed mid

-- Between a byte from 128 on and one of the ends there are spaces only.
pub record IsUnreadable (s : Bytes) : Type 0 where
  pub before : Bytes
  pub byte : ℕ
  pub after : Bytes
  pub whole : s ≡ before ++ (byte ∷ after)
  pub high : 128 ≤ byte
  pub blank_side : (all is_blank before ≡ true) ⊎ (all is_blank after ≡ true)

all-append : (xs ys : Bytes) → all is_blank (xs ++ ys) ≡ (all is_blank xs && all is_blank ys)
all-append [] ys = refl
all-append (x ∷ xs) ys = ground (arith, all-append xs ys)

all-reverse : (xs : Bytes) → all is_blank xs ≡ true → all is_blank (reverse xs) ≡ true
all-reverse [] h = refl
all-reverse (x ∷ xs) h =
    rw (reverse-cons x xs, all-append (reverse xs) (x ∷ [])) (ground (arith, all-reverse xs))

-- What `ltrim` does: it cuts spaces off, or meets a byte from 128 on behind spaces.
record Cut (s t : Bytes) : Type 0 where
  front : Bytes
  whole : s ≡ front ++ t
  blank : all is_blank front ≡ true
  begins : begins_with_blank t ≡ false

record Stuck (s : Bytes) : Type 0 where
  front : Bytes
  byte : ℕ
  rest : Bytes
  whole : s ≡ front ++ (byte ∷ rest)
  high : 128 ≤ byte
  blank : all is_blank front ≡ true

abbrev LeftTrims : Bytes → Type 0
LeftTrims s = ((t : Bytes) × (ltrim s ≡ some t) × Cut s t) ⊎ ((ltrim s ≡ none) × Stuck s)

is_space-none : (c : ℕ) → ltb c 128 ≡ false → is_space c ≡ none
unfolding is_space
is_space-none c high = if_false (ltb c 128) _ _ high

is_space-some : (c : ℕ) (b : Bool) → ltb c 128 ≡ true → is_blank c ≡ b → is_space c ≡ some b
unfolding is_space
is_space-some c b low e = if_true (ltb c 128) _ _ low ∙ ap some e

ltrim-high : (c : ℕ) (s : Bytes) → ltb c 128 ≡ false → ltrim (c ∷ s) ≡ none
unfolding ltrim skip_space
ltrim-high c s high = ap (λ o. skip_space o (c ∷ s) (ltrim s)) (is_space-none c high)

ltrim-other :
    (c : ℕ) (s : Bytes) → ltb c 128 ≡ true → is_blank c ≡ false → ltrim (c ∷ s) ≡ some (c ∷ s)
unfolding ltrim skip_space
ltrim-other c s low other =
    ap (λ o. skip_space o (c ∷ s) (ltrim s)) (is_space-some c false low other)

ltrim-blank : (c : ℕ) (s : Bytes) → ltb c 128 ≡ true → is_blank c ≡ true → ltrim (c ∷ s) ≡ ltrim s
unfolding ltrim skip_space
ltrim-blank c s low blank =
    ap (λ o. skip_space o (c ∷ s) (ltrim s)) (is_space-some c true low blank)

all-cons :
    (c : ℕ) (s : Bytes) → is_blank c ≡ true → all is_blank s ≡ true → all is_blank (c ∷ s) ≡ true
all-cons c s h k = ground arith

ltrim-LeftTrims : (s : Bytes) → LeftTrims s
unfolding ltrim
ltrim-LeftTrims [] =
    inl ([], refl, record { front = []; whole = refl; blank = refl; begins = refl })
ltrim-LeftTrims (c ∷ s) = elim (Bool-cases (ltb c 128)) [
  | inr high ↦ inr (
    ltrim-high c s high,
    record {
      front = [];
      byte = c;
      rest = s;
      whole = refl;
      high = ground (arith, high);
      blank = refl;
    },
  )
  | inl low ↦ elim (Bool-cases (is_blank c)) [
    | inr other ↦ inl (
      c ∷ s,
      ltrim-other c s low other,
      record { front = []; whole = refl; blank = refl; begins = other },
    )
    | inl blank ↦ elim (ltrim-LeftTrims s) [
      | inl (t, e, cut) ↦ inl (
        t,
        ltrim-blank c s low blank ∙ e,
        record {
          front = c ∷ cut.front;
          whole = ap (◌∷◌ c) cut.whole;
          blank = all-cons c cut.front blank cut.blank;
          begins = cut.begins;
        },
      )
      | inr (e, stuck) ↦ inr (
        ltrim-blank c s low blank ∙ e,
        record {
          front = c ∷ stuck.front;
          byte = stuck.byte;
          rest = stuck.rest;
          whole = ap (◌∷◌ c) stuck.whole;
          high = stuck.high;
          blank = all-cons c stuck.front blank stuck.blank;
        },
      )
    ]
  ]
]

front_of_append :
    (xs ys : Bytes) → begins_with_blank (xs ++ ys) ≡ false → begins_with_blank xs ≡ false
front_of_append [] ys h = refl
front_of_append (x ∷ xs) ys h = h

-- A split of the reversed string is one of the string.
reverse_split : (s u v : Bytes) → reverse s ≡ u ++ v → s ≡ reverse v ++ reverse u
reverse_split s u v e = sym (reverse-reverse s) ∙ ap reverse e ∙ reverse-append u v

abbrev pub TrimCases : Bytes → Type 0
TrimCases s =
    ((mid : Bytes) × (trim s ≡ some mid) × Trims s mid) ⊎ ((trim s ≡ none) × IsUnreadable s)

rtrim-TrimCases : (s t : Bytes) → ltrim s ≡ some t → Cut s t → LeftTrims (reverse t) → TrimCases s
unfolding trim rtrim
rtrim-TrimCases s t e cut (inl (r, f, back)) = inl (
  reverse r,
  ap (λ o. o >>= (λ t. reversed (ltrim (reverse t)))) e ∙ ap reversed f,
  record {
    before = cut.front;
    after = reverse back.front;
    whole = cut.whole ∙ ap (◌++◌ cut.front) split;
    before_blank = cut.blank;
    after_blank = all-reverse back.front back.blank;
    trimmed = record {
      front = front_of_append (reverse r) (reverse back.front) (rw (← split) cut.begins);
      back = rw reverse-reverse back.begins;
    };
  },
)
  where
    split : t ≡ reverse r ++ reverse back.front
    split = reverse_split t back.front r back.whole
rtrim-TrimCases s t e cut (inr (f, stuck)) = inr (
  ap (λ o. o >>= (λ t. reversed (ltrim (reverse t)))) e ∙ ap reversed f,
  record {
    before = cut.front ++ reverse stuck.rest;
    byte = stuck.byte;
    after = reverse stuck.front;
    whole =
        cut.whole
        ∙ ap (◌++◌ cut.front) split
        ∙ sym (append_assoc cut.front (reverse stuck.rest) (stuck.byte ∷ reverse stuck.front));
    high = stuck.high;
    blank_side = inr (all-reverse stuck.front stuck.blank);
  },
)
  where
    split : t ≡ reverse stuck.rest ++ (stuck.byte ∷ reverse stuck.front)
    split =
        reverse_split t stuck.front (stuck.byte ∷ stuck.rest) stuck.whole
        ∙ ap (λ u. u ++ reverse stuck.front) (reverse-cons stuck.byte stuck.rest)
        ∙ append_assoc (reverse stuck.rest) (stuck.byte ∷ []) (reverse stuck.front)

pub trim-TrimCases : (s : Bytes) → TrimCases s
unfolding trim
trim-TrimCases s = elim (ltrim-LeftTrims s) [
  | inl (t, e, cut) ↦ rtrim-TrimCases s t e cut (ltrim-LeftTrims (reverse t))
  | inr (e, stuck) ↦ inr (
    ap (λ o. o >>= rtrim) e,
    record {
      before = stuck.front;
      byte = stuck.byte;
      after = stuck.rest;
      whole = stuck.whole;
      high = stuck.high;
      blank_side = inl stuck.blank;
    },
  )
]
