-- ===== src/Kubectl/Cancel.antt =====
-- What the command `cancel` asks for, and what the controller makes of it.
use nutanix_vma.Prelude.{
  ℕ, ◌+◌, length, String, Bool, true, false, ◌||◌, List, [], ◌∷◌, ◌++◌, contains, ◌≡◌, refl, ap,
  sym, ◌∙◌, inl, inr, Bool-cases, All, get_elem?, some, arith, str_eq, eq_iff,
}
use mathlib.Core.List.{append-nil, append_assoc}
use native.Mathlib.Nat.{zero-add}
use nutanix_vma.Api.{Migration, VmStatus}
use nutanix_vma.Outside.{Reply, Call, Env}
use nutanix_vma.Pipeline.{is_terminal_vm_phase}
use nutanix_vma.Controller.Sweep.{process_cancellations}
use nutanix_vma.Controller.Sweep.Cancel.{cancelled_at, process_cancellations-marks}
use nutanix_vma.Kubectl.{CancelEdit, Outcome, add_cancels, run_cancel, store_cancel}

contains-append :
    (x : String) (xs ys : List String) → contains x (xs ++ ys) ≡ (contains x xs || contains x ys)
contains-append x [] ys = refl
contains-append x (y ∷ xs) ys = ground (arith, contains-append x xs ys)

-- The map and the list hold the same IDs.
abbrev Same : List String → List String → Type 0
Same existing cancel = (x : String) → contains x existing ≡ contains x cancel

Same-add :
    (id : String) (existing cancel : List String)
    → Same existing cancel
    → Same (id ∷ existing) (cancel ++ id ∷ [])
Same-add id existing cancel same x = ground (arith, same x, contains-append x cancel (id ∷ []))

-- A listed ID is found in what is kept already.
or_listed :
    (id x : String) (existing cancel ids : List String)
    → Same existing cancel
    → contains id existing ≡ true
    → (contains x cancel || contains x ids) ≡ (contains x cancel || (str_eq id x || contains x ids))
or_listed id x existing cancel ids same y = elim (Bool-cases (str_eq id x)) [
  | inl e ↦
      let held : contains x cancel ≡ true =
        sym (same x) ∙ ap (λ z. contains z existing) (sym ((eq_iff id x).0 e)) ∙ y in
      rw held refl
  | inr n ↦ rw n refl
]

or_appended :
    (id x : String) (cancel ids : List String)
    → (contains x (cancel ++ id ∷ []) || contains x ids)
      ≡ (contains x cancel || (str_eq id x || contains x ids))
or_appended id x cancel ids = ground (arith, contains-append x cancel (id ∷ []))

contains-add_cancels :
    (existing : List String) (edit : CancelEdit) (ids : List String) (x : String)
    → Same existing edit.cancel
    → contains x (add_cancels existing edit ids).cancel ≡ (contains x edit.cancel || contains x ids)
unfolding add_cancels
contains-add_cancels existing edit [] x same = ground arith
contains-add_cancels existing edit (id ∷ ids) x same = elim (Bool-cases (contains id existing)) [
  | inl y ↦
      rw (y, add_cancels)
        (contains-add_cancels existing edit ids x same
          ∙ or_listed id x existing edit.cancel ids same y)
  | inr n ↦
      rw (n, add_cancels)
        (contains-add_cancels (id ∷ existing)
            (record { cancel = edit.cancel ++ id ∷ []; added = edit.added + 1 }) ids x
            (Same-add id existing edit.cancel same)
          ∙ or_appended id x edit.cancel ids)
]

-- What the list grew by is counted, behind what stood there.
pub record Grown (before : CancelEdit) (after : CancelEdit) : Type 0 where
  pub more : List String
  pub split : after.cancel ≡ before.cancel ++ more
  pub counted : after.added ≡ before.added + length more

add_cancels-Grown :
    (existing : List String) (edit : CancelEdit) (ids : List String)
    → Grown edit (add_cancels existing edit ids)
unfolding add_cancels
add_cancels-Grown existing edit [] = record {
  more = [];
  split = sym (append-nil edit.cancel);
  counted = omega arith;
}
add_cancels-Grown existing edit (id ∷ ids) = elim (Bool-cases (contains id existing)) [
  | inl y ↦ rw (y, add_cancels) (add_cancels-Grown existing edit ids)
  | inr n ↦
      rw (n, add_cancels)
        (let g =
            add_cancels-Grown (id ∷ existing)
              (record { cancel = edit.cancel ++ id ∷ []; added = edit.added + 1 }) ids in
          record {
            more = id ∷ g.more;
            split = g.split ∙ append_assoc edit.cancel (id ∷ []) g.more;
            counted = omega (arith, g.counted);
          })
]

-- IDs that are all there already change nothing.
add_cancels_again :
    (existing : List String) (edit : CancelEdit) (ids : List String)
    → All (λ x. contains x existing ≡ true) ids
    → add_cancels existing edit ids ≡ edit
unfolding add_cancels
add_cancels_again existing edit [] h = refl
add_cancels_again existing edit (id ∷ ids) h =
    rw (h.0, add_cancels) (add_cancels_again existing edit ids h.1)

-- Each ID of a list is found in a list that has them all.
All-contained :
    (ids known : List String)
    → ((x : String) → contains x ids ≡ true → contains x known ≡ true)
    → All (λ x. contains x known ≡ true) ids
All-contained [] known h = tt
All-contained (id ∷ ids) known h = (
  h id (rw ((eq_iff id id).1 refl) refl),
  All-contained ids known (λ x e. h x (ground (arith, e))),
)

store_cancel-more :
    (m : Migration) (more : List String) (update : Migration → Reply (Unit {0}))
    → ((n : Migration) → update n ≡ Reply.ok tt)
    → store_cancel m (record { cancel = m.cancel ++ more; added = length more }) update
      ≡ Outcome.ok (record m { cancel = m.cancel ++ more }, length more)
unfolding store_cancel
store_cancel-more m [] update h =
    λ i. Outcome.ok (record m { cancel = sym (append-nil m.cancel) i }, 0)
store_cancel-more m (x ∷ more) update h =
    ground (arith, h (record m { cancel = m.cancel ++ x ∷ more }))

store_cancel-none :
    (m : Migration) (update : Migration → Reply (Unit {0}))
    → store_cancel m (record { cancel = m.cancel; added = 0 }) update ≡ Outcome.ok (m, 0)
unfolding store_cancel
store_cancel-none m update = refl

or_true : (b : Bool) → (b || true) ≡ true
or_true true = refl
or_true false = refl

abbrev start : Migration → CancelEdit
start m = record { cancel = m.cancel; added = 0 }

abbrev cancel_of : Outcome (Migration × ℕ) → List String
cancel_of (Outcome.ok (m, n)) = m.cancel
cancel_of (Outcome.err e) = []

module _ (m : Migration) (ids : List String) (update : Migration → Reply (Unit {0})) where
  -- If the Migration can be written, the command `cancel` puts IDs behind the cancel list, as many as it
  -- counts, so that the list has exactly the IDs that it had and those that are asked for. The same
  -- command run again adds none, and makes no write that could fail.
  pub run_cancel-adds :
      ((n : Migration) → update n ≡ Reply.ok tt)
      → (more : List String) × (run_cancel (Reply.ok m) ids update
          ≡ Outcome.ok (record m { cancel = m.cancel ++ more }, length more))
        × ((x : String) → contains x (m.cancel ++ more) ≡ (contains x m.cancel || contains x ids))
        × ((fails : Migration → Reply (Unit {0}))
            → run_cancel (Reply.ok (record m { cancel = m.cancel ++ more })) ids fails
              ≡ Outcome.ok (record m { cancel = m.cancel ++ more }, 0))
  unfolding run_cancel
  run_cancel-adds h =
      let g = add_cancels-Grown m.cancel (start m) ids in
      let more = g.more in
      let edit : add_cancels m.cancel (start m) ids
          ≡ record { cancel = m.cancel ++ more; added = length more } =
        λ i. record { cancel = g.split i; added = (g.counted ∙ zero-add (length more)) i } in
      let member : (x : String)
          → contains x (m.cancel ++ more) ≡ (contains x m.cancel || contains x ids) =
        λ x.
          ap (contains x) (sym g.split)
          ∙ contains-add_cancels m.cancel (start m) ids x (λ y. refl) in
      (
        more,
        ap (λ e. store_cancel m e update) edit ∙ store_cancel-more m more update h,
        member,
        λ fails.
            let m' = record m { cancel = m.cancel ++ more } in
            ap (λ e. store_cancel m' e fails)
              (add_cancels_again (m.cancel ++ more) (start m') ids (
                All-contained ids (m.cancel ++ more)
                  (λ x e. rw (member x, e) (or_true (contains x m.cancel)))))
            ∙ store_cancel-none m' fails,
      )

  -- A VM of the Migration that is asked for by the command `cancel` and is in no terminal phase is made
  -- Cancelled by the controller's next pass over the cancel list.
  pub run_cancel-stops :
      (env : Env) (vms : List VmStatus) (calls : List Call) (i : ℕ) (v : VmStatus)
      (stored : Migration) (added : ℕ)
      → ((n : Migration) → update n ≡ Reply.ok tt)
      → run_cancel (Reply.ok m) ids update ≡ Outcome.ok (stored, added)
      → get_elem? vms i ≡ some v
      → contains v.id ids ≡ true
      → is_terminal_vm_phase v.phase ≡ false
      → (now : ℕ) × (get_elem? (process_cancellations env stored.cancel vms calls).0 i
          ≡ some (cancelled_at now v))
  run_cancel-stops env vms calls i v stored added h ran at asked alive =
      let (more, done, member, again) = run_cancel-adds h in
      let same : stored.cancel ≡ m.cancel ++ more = ap cancel_of (sym ran ∙ done) in
      let listed : contains v.id stored.cancel ≡ true =
        rw (same, member v.id, asked) (or_true (contains v.id m.cancel)) in
      let (length_same, marks) = process_cancellations-marks env stored.cancel vms calls in
      let (now, e) = marks i v at in (now, e ∙ rw (listed, alive) refl)
