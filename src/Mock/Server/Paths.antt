-- ===== src/Mock/Server/Paths.antt =====
-- Which handler the mock server chooses for a path that goes on behind a pattern.
use Prim.Native.Char.{code}
use Prim.Native.String
use Prim.Native.String.append
use nutanix_vma.Prelude.{
  ℕ, ◌==◌, Bool, true, false, String, none, some, List, [], ◌∷◌, ◌++◌, ◌≡◌, refl, ap, sym, ◌∙◌, inl,
  inr, Bool-cases, codes, str_eq, eq_iff, if◌then◌else◌,
}
use nutanix_vma.Prelude.Digits.{codes-append}
use nutanix_vma.Mock.{Store}
use nutanix_vma.Mock.Handlers.{MockRequest, split_first, handle_task, handle_vm_by_id}
use nutanix_vma.Mock.Server.{strip_text, dispatch, routes}
use nutanix_vma.Mock.Server.Reading.{free_of, strip_text-append}

-- The texts have different characters at a place.
abbrev pub clash : String → String → Bool
clash String.[] q = false
clash (String.◌∷◌ c p) String.[] = false
clash (String.◌∷◌ c p) (String.◌∷◌ d q) =
    let rest = clash p q in if code c == code d then rest else true

pub strip_text-clash : (p q x : String) → clash p q ≡ true → strip_text p (String.◌++◌ q x) ≡ none
unfolding strip_text
strip_text-clash String.[] q x h = absurd cc
strip_text-clash (String.◌∷◌ c p) String.[] x h = absurd cc
strip_text-clash (String.◌∷◌ c p) (String.◌∷◌ d q) x h =
    ap (strip_text (String.◌∷◌ c p)) (append.cons d q x) ∙ elim (Bool-cases (code c == code d)) [
      | inl e ↦ rw (e, strip_text-clash p q x (let h' = (rw e at h) in h')) refl
      | inr e ↦ rw e refl
    ]

pub str_eq-stripped :
    (q path p x : String)
    → strip_text q path ≡ some x
    → strip_text q p ≡ none
    → str_eq path p ≡ false
str_eq-stripped q path p x h n = elim (Bool-cases (str_eq path p)) [
  | inl e ↦ absurd (let same = ap (strip_text q) ((eq_iff path p).0 e) in cc (same, h, n))
  | inr e ↦ e
]

pub split_first-free :
    (sep : ℕ) (s : String) → free_of sep (codes s) ≡ true → split_first sep s ≡ (s, none)
unfolding split_first
split_first-free sep String.[] h = refl
split_first-free sep (String.◌∷◌ c s) h = elim (Bool-cases (code c == sep)) [
  | inl e ↦ absurd (let q = (rw e at h) in cc q)
  | inr e ↦ rw (e, split_first-free sep s (let q = (rw e at h) in q)) refl
]

free_of-append :
    (sep : ℕ) (a b : List ℕ)
    → free_of sep a ≡ true
    → free_of sep b ≡ true
    → free_of sep (a ++ b) ≡ true
free_of-append sep [] b ha hb = hb
free_of-append sep (c ∷ a) b ha hb = elim (Bool-cases (c == sep)) [
  | inl e ↦ absurd (let q = (rw e at ha) in cc q)
  | inr e ↦ rw e (free_of-append sep a b (let q = (rw e at ha) in q) hb)
]

pub free_of-text :
    (sep : ℕ) (a b : String)
    → free_of sep (codes a) ≡ true
    → free_of sep (codes b) ≡ true
    → free_of sep (codes (String.◌++◌ a b)) ≡ true
free_of-text sep a b ha hb = rw (codes-append a b) (free_of-append sep (codes a) (codes b) ha hb)

pub append-empty : (s : String) → String.◌++◌ s "" ≡ s
append-empty String.[] = append.nil ""
append-empty (String.◌∷◌ c s) = append.cons c s "" ∙ ap (λ x. String.◌∷◌ c x) (append-empty s)

pub append_assoc :
    (a b c : String) → String.◌++◌ a (String.◌++◌ b c) ≡ String.◌++◌ (String.◌++◌ a b) c
append_assoc String.[] b c =
    append.nil (String.◌++◌ b c) ∙ sym (ap (λ x. String.◌++◌ x c) (append.nil b))
append_assoc (String.◌∷◌ d a) b c =
    append.cons d a (String.◌++◌ b c)
    ∙ ap (λ x. String.◌∷◌ d x) (append_assoc a b c)
    ∙ sym (append.cons d (String.◌++◌ a b) c)
    ∙ sym (ap (λ x. String.◌++◌ x c) (append.cons d a b))

abbrev pub vms_below : String
vms_below = "/api/vmm/v4.0/ahv/config/vms/"

abbrev pub tasks_below : String
tasks_below = "/api/prism/v4.0/config/tasks/"

module _ (url : String) (r : MockRequest) (s : Store) (x : String) where
  pub dispatch-vm :
      dispatch (routes url) (String.◌++◌ vms_below x) r s
      ≡ handle_vm_by_id (record r { rest = x }) s
  unfolding dispatch routes
  dispatch-vm =
      rw
        (
          str_eq-stripped vms_below (String.◌++◌ vms_below x) "/api/vmm/v4.0/ahv/config/vms" x
              (strip_text-append vms_below x) (unfold strip_text in refl),
          strip_text-append vms_below x,
        )
        refl

  pub dispatch-task :
      dispatch (routes url) (String.◌++◌ tasks_below x) r s ≡ handle_task (record r { rest = x }) s
  unfolding dispatch routes
  dispatch-task =
      rw
        (
          str_eq-stripped tasks_below (String.◌++◌ tasks_below x) "/api/vmm/v4.0/ahv/config/vms" x
              (strip_text-append tasks_below x) (unfold strip_text in refl),
          strip_text-clash vms_below tasks_below x refl,
          strip_text-append tasks_below x,
        )
        refl
