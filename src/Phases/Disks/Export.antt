-- ===== src/Phases/Disks/Export.antt =====
-- What ExportDisks records in `ImageUUIDs`.
use mathlib.Core.List.{append_assoc, append-nil}
use nutanix_vma.Prelude.{
  ℕ, ◌+◌, ◌≤◌, max, leb, leb→le, ltb, ltb→lt, ltb→ge, length, length-append, String, List, [], ◌∷◌,
  ◌++◌, ◌≡◌, ◌≢◌, refl, ◌∙◌, sym, inl, inr, Bool-cases, arith,
}
use nutanix_vma.Api.{ApiError, Disk, Vm}
use nutanix_vma.Outside.{Reply, Reply-cases, Call, Env}
use nutanix_vma.Session.{PhaseResult, Session, Outcome, ok, return, done, continue, pure, ◌>>=◌}
use nutanix_vma.Context.{Context, filter_data_disks, get_disk_uuid}
use nutanix_vma.Phases.Disks.{
  cluster_ref, disk_name, export_from, save_images, export_disks, phase_export_disks,
}

-- Each export succeeds.
abbrev pub Exports : Env → Type 0
Exports env =
    (calls : List Call) (name disk cluster : String)
    → (uuid : String) × (env.new_image calls name disk cluster ≡ Reply.ok uuid)

differ : (uuid : String) (e : ApiError) → Reply.ok uuid ≢ Reply.err e
differ uuid e h = cc

returned : (x : PhaseResult) (o : Outcome (Unit {0})) (a : Unit {0}) → o ≡ return x → o ≢ ok a
returned x o a h k = cc

failing :
    (env : Env) (calls : List Call) (name disk cluster : String) (e : ApiError)
    → Exports env
    → env.new_image calls name disk cluster ≡ Reply.err e
    → ⊥
failing env calls name disk cluster e x q =
    let (uuid, h) = x calls name disk cluster in differ uuid e (sym h ∙ q)

-- A run that starts with `images` in the status: no image is dropped or moved, and where it gives a result,
-- there is one for each of `n` disks, or there are as many as before, if that is more; if each export
-- succeeds, it gives one.
pub record Grown {ℓ} (env : Env) {A : Type ℓ} (images : List String) (n : ℕ)
    (r : Outcome A × Session) : Type ℓ where
  pub new : List String
  pub kept : r.1.vm.image_uuids ≡ images ++ new
  pub full : (a : A) → r.0 ≡ ok a → length r.1.vm.image_uuids ≡ max (length images) n
  pub runs : Exports env → (a : A) × (r.0 ≡ ok a)

module _ (env : Env) (name label : ℕ → String) (cluster : String) where
  export_from-Grown :
      (disks : List Disk) (i n : ℕ) (images : List String) (s : Session)
      → s.vm.image_uuids ≡ images
      → i ≤ length images
      → n ≡ i + length disks
      → Grown env images n (export_from env save_images name label cluster i images disks s)
  unfolding export_from ◌>>=◌
  export_from-Grown [] i n images s e h k = record {
    new = [];
    kept = e ∙ sym (append-nil images);
    full = λ a p. rw e (omega arith);
    runs = λ x. (tt, refl);
  }
  export_from-Grown (d ∷ ds) i n images s e h k = elim (Bool-cases (ltb i (length images))) [
    | inl l ↦ rw l (
        export_from-Grown ds (i + 1) n images s e (omega (arith, ltb→lt i (length images) l))
          (omega arith))
    | inr l ↦ elim (Reply-cases (env.new_image s.calls (name i) (get_disk_uuid d) cluster)) [
      | inl (uuid, q) ↦
          let g =
            export_from-Grown ds (i + 1) n (images ++ uuid ∷ [])
              (record {
                vm = save_images (images ++ uuid ∷ []) s.vm;
                calls = Call.create_image_from_disk (name i) (get_disk_uuid d) cluster ∷ s.calls;
              })
              refl (omega (arith, length-append images (uuid ∷ []), h)) (omega arith) in
          rw (l, q)
            (record {
              new = uuid ∷ g.new;
              kept = g.kept ∙ append_assoc images (uuid ∷ []) g.new;
              full = λ a p.
                  omega (
                    arith,
                    g.full a p,
                    length-append images (uuid ∷ []),
                    ltb→ge i (length images) l,
                  );
              runs = g.runs;
            })
      | inr (e', q) ↦
          rw (l, q)
            (record {
              new = [];
              kept = e ∙ sym (append-nil images);
              full = λ a p. absurd cc;
              runs = λ x. absurd (failing env s.calls (name i) (get_disk_uuid d) cluster e' x q);
            })
    ]
  ]

Grown-done :
    (env : Env) (images : List String) (n : ℕ) (r : Outcome (Unit {0}) × Session)
    → Grown env images n r
    → Grown env images n (continue r.0 (λ u. pure done) r.1)
unfolding pure
Grown-done env images n (ok u, s) g = record {
  new = g.new;
  kept = g.kept;
  full = λ a p. g.full u refl;
  runs = λ x. (done, refl);
}
Grown-done env images n (return x, s) g = record {
  new = g.new;
  kept = g.kept;
  full = λ a p. absurd cc;
  runs = λ h. absurd (let (a, q) = g.runs h in returned x _ a refl q);
}

module _ (env : Env) (ctx : Context) where
  export_disks-Grown :
      (label : ℕ → String) (vm : Vm) (disks : List Disk) (s : Session)
      → Grown env s.vm.image_uuids (length disks) (export_disks env ctx label vm disks s)
  unfolding export_disks ◌>>=◌
  export_disks-Grown label vm disks s =
      export_from-Grown env (disk_name ctx s.vm) label (cluster_ref vm) disks 0 (length disks)
        s.vm.image_uuids s refl (omega arith) (omega arith)

  -- Where the source VM can be read, ExportDisks keeps the images that the status has, in front, also
  -- when it fails; where it does not fail there are afterwards as many as the VM has data disks, or as
  -- many as before, if that is more; and it does not fail if each export succeeds.
  pub phase_export_disks-Grown :
      (s : Session) (vm : Vm)
      → env.vm s.calls s.vm.id ≡ Reply.ok vm
      → Grown env s.vm.image_uuids
          (length (filter_data_disks vm.disks))
          (phase_export_disks env ctx s)
  unfolding phase_export_disks ◌>>=◌
  phase_export_disks-Grown s vm h =
      elim (Bool-cases (leb (length (filter_data_disks vm.disks)) (length s.vm.image_uuids))) [
        | inl e ↦
            rw (h, e)
              (record {
                new = [];
                kept = sym (append-nil s.vm.image_uuids);
                full = λ a p. omega (
                  arith,
                  leb→le (length (filter_data_disks vm.disks)) (length s.vm.image_uuids) e,
                );
                runs = λ x. (done, refl);
              })
        | inr e ↦
            rw (h, e)
              (Grown-done env s.vm.image_uuids _ _ (
                export_disks-Grown _ vm (filter_data_disks vm.disks)
                  (record s { calls = Call.get_vm s.vm.id ∷ s.calls })))
      ]
