-- ===== src/Builder/Sanitize/Label.antt =====
-- Whether the texts of internal/builder/sanitize.go are DNS-1123 labels.
use Prim.Native.Char.{Char}
use nutanix_vma.Prelude.{
  ℕ, zero, suc, ◌≤◌, ltb, ltb→ge, Bool, true, false, not, ◌&&◌, ◌||◌, [], ◌∷◌, map, All, ◌≡◌, refl,
  inl, inr, Bool-cases, if◌then◌else◌, length, arith,
}
use nutanix_vma.Builder.Sanitize.{
  Text, is_alnum, is_hyphen, is_nil, replace_other, collapse, trim_left, trim_right, take, truncate,
  or_vm, replace_chars, base_name, max_name_length,
}

abbrev pub is_label_char : Char → Bool
is_label_char c = is_alnum c || is_hyphen c

-- The text is empty, or it begins with another character than a hyphen; or so for its end.
abbrev pub starts_clean : Text → Bool
starts_clean [] = true
starts_clean (c ∷ s) = not (is_hyphen c)

abbrev pub ends_clean : Text → Bool
ends_clean [] = true
ends_clean (c ∷ s) = if is_nil s then not (is_hyphen c) else ends_clean s

-- A DNS-1123 label.
pub record IsLabel (s : Text) : Type 0 where
  pub filled : is_nil s ≡ false
  pub short : length s ≤ 63
  pub starts : starts_clean s ≡ true
  pub ends : ends_clean s ≡ true
  pub letters : All (λ c. is_label_char c ≡ true) s

replace_other-label : (c : Char) → is_label_char (replace_other c) ≡ true
unfolding replace_other
replace_other-label c = elim (Bool-cases (is_label_char c)) [ inl e ↦ rw e e | inr e ↦ rw e refl ]

replaced-letters : (s : Text) → All (λ c. is_label_char c ≡ true) (map replace_other s)
replaced-letters [] = tt
replaced-letters (c ∷ s) = (replace_other-label c, replaced-letters s)

module _ (P : Char → Type 0) where
  collapse-All : (b : Bool) (s : Text) → All P s → All P (collapse b s)
  unfolding collapse
  collapse-All b [] h = tt
  collapse-All b (c ∷ s) h = elim (Bool-cases (is_hyphen c && b)) [
    | inl e ↦ rw e (collapse-All (is_hyphen c) s h.1)
    | inr e ↦ rw e (h.0, collapse-All (is_hyphen c) s h.1)
  ]

  trim_left-All : (s : Text) → All P s → All P (trim_left s)
  unfolding trim_left
  trim_left-All [] h = tt
  trim_left-All (c ∷ s) h = elim (Bool-cases (is_hyphen c)) [
    | inl e ↦ rw e (trim_left-All s h.1)
    | inr e ↦ rw e h
  ]

  trim_right-All : (s : Text) → All P s → All P (trim_right s)
  unfolding trim_right
  trim_right-All [] h = tt
  trim_right-All (c ∷ s) h = elim (Bool-cases (is_hyphen c && is_nil (trim_right s))) [
    | inl e ↦ rw e tt
    | inr e ↦ rw e (h.0, trim_right-All s h.1)
  ]

  take-All : (n : ℕ) (s : Text) → All P s → All P (take n s)
  take-All zero s h = tt
  take-All (suc n) [] h = tt
  take-All (suc n) (c ∷ s) h = (h.0, take-All n s h.1)

trim_left-starts : (s : Text) → starts_clean (trim_left s) ≡ true
unfolding trim_left
trim_left-starts [] = refl
trim_left-starts (c ∷ s) = elim (Bool-cases (is_hyphen c)) [
  | inl e ↦ rw e (trim_left-starts s)
  | inr e ↦ rw e (rw e refl)
]

trim_right-starts : (s : Text) → starts_clean s ≡ true → starts_clean (trim_right s) ≡ true
unfolding trim_right
trim_right-starts [] h = refl
trim_right-starts (c ∷ s) h = elim (Bool-cases (is_hyphen c && is_nil (trim_right s))) [
  | inl e ↦ rw e refl
  | inr e ↦ rw e h
]

take-starts : (n : ℕ) (s : Text) → starts_clean s ≡ true → starts_clean (take n s) ≡ true
take-starts zero s h = refl
take-starts (suc n) [] h = refl
take-starts (suc n) (c ∷ s) h = h

trim_right-ends : (s : Text) → ends_clean (trim_right s) ≡ true
unfolding trim_right
trim_right-ends [] = refl
trim_right-ends (c ∷ s) = elim (Bool-cases (is_nil (trim_right s))) [
  | inl n ↦ elim (Bool-cases (is_hyphen c)) [ inl e ↦ rw (e, n) refl | inr e ↦ rw (e, n, e) refl ]
  | inr n ↦ elim (Bool-cases (is_hyphen c)) [
    | inl e ↦ rw (e, n, n) (trim_right-ends s)
    | inr e ↦ rw (e, n) (trim_right-ends s)
  ]
]

length-trim_right : (s : Text) → length (trim_right s) ≤ length s
unfolding trim_right
length-trim_right [] = omega arith
length-trim_right (c ∷ s) = elim (Bool-cases (is_hyphen c && is_nil (trim_right s))) [
  | inl e ↦ rw e (omega arith)
  | inr e ↦ rw e (omega (arith, length-trim_right s))
]

length-take : (n : ℕ) (s : Text) → length (take n s) ≤ n
length-take zero s = omega arith
length-take (suc n) [] = omega arith
length-take (suc n) (c ∷ s) = omega (arith, length-take n s)

-- What `truncate` and `or_vm` are given, and give.
record IsClean (s : Text) : Type 0 where
  starts : starts_clean s ≡ true
  ends : ends_clean s ≡ true
  letters : All (λ c. is_label_char c ≡ true) s

truncate-IsClean : (s : Text) → IsClean s → IsClean (truncate s)
unfolding truncate
truncate-IsClean s h = elim (Bool-cases (ltb max_name_length (length s))) [
  | inl e ↦ rw e (record {
    starts = trim_right-starts (take max_name_length s) (take-starts max_name_length s h.starts);
    ends = trim_right-ends (take max_name_length s);
    letters = trim_right-All _ (take max_name_length s) (take-All _ max_name_length s h.letters);
  })
  | inr e ↦ rw e h
]

length-truncate : (s : Text) → length (truncate s) ≤ 63
unfolding truncate
length-truncate s = elim (Bool-cases (ltb max_name_length (length s))) [
  | inl e ↦
      rw e
        (omega (arith, length-trim_right (take max_name_length s), length-take max_name_length s))
  | inr e ↦ rw e (ltb→ge max_name_length (length s) e)
]

or_vm-IsLabel : (s : Text) → IsClean s → length s ≤ 63 → IsLabel (or_vm s)
unfolding or_vm
or_vm-IsLabel [] h k = record {
  filled = refl;
  short = omega arith;
  starts = refl;
  ends = refl;
  letters = (refl, (refl, tt));
}
or_vm-IsLabel (c ∷ s) h k = record {
  filled = refl;
  short = k;
  starts = h.starts;
  ends = h.ends;
  letters = h.letters;
}

-- The name that is made of any text, the empty one included, is a DNS-1123 label: it has between 1 and 63
-- characters, each a lower-case letter, a digit or a hyphen, and neither its first nor its last is a hyphen.
pub base_name-IsLabel : (s : Text) → IsLabel (base_name s)
unfolding base_name replace_chars
base_name-IsLabel s =
    let collapsed = collapse false (replace_chars s) in
    or_vm-IsLabel (truncate (trim_right (trim_left collapsed)))
      (truncate-IsClean (trim_right (trim_left collapsed)) (record {
        starts = trim_right-starts (trim_left collapsed) (trim_left-starts collapsed);
        ends = trim_right-ends (trim_left collapsed);
        letters = trim_right-All _ (trim_left collapsed) (
            trim_left-All _ collapsed
              (collapse-All _ false (replace_chars s) (replaced-letters _)));
      }))
      (length-truncate (trim_right (trim_left collapsed)))
