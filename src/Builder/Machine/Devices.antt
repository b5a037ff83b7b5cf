-- ===== src/Builder/Machine/Devices.antt =====
-- How the disks and volumes of a VirtualMachine follow the data disks of the source VM.
use Prim.Native.String
use mathlib.Core.List.{append-nil}
use nutanix_vma.Prelude.Digits.{number_from, number_from-decimal, codes-append}
use nutanix_vma.Prelude.{
  ◌≢◌, ◌≤◌, ◌++◌, ap, sym, ◌∙◌, All, drop, codes, decimal, ℕ, zero, suc, ◌+◌, String, Bool, true,
  false, ◌&&◌, Option, none, some, List, [], ◌∷◌, map, get_elem?, length, ◌≡◌, refl, inl, inr,
  Bool-cases, if◌then◌else◌, arith,
}
use nutanix_vma.Api.{Disk, NetworkPair, Vm}
use nutanix_vma.Context.{is_cdrom, filter_data_disks}
use nutanix_vma.Builder.Machine.{
  bus_of, volume_name, is_boot_disk, build_disks, build_volumes, build,
}

-- The claims of `n` volumes: the PVC names from index `k` on, in their order, and none behind the last.
abbrev pub claims_from : (pvc_names : List String) → (k n : ℕ) → List (Option String)
claims_from pvc_names k zero = []
claims_from pvc_names k (suc n) = get_elem? pvc_names k ∷ claims_from pvc_names (k + 1) n

-- The boot orders of `n` disks: 1 for the first, if there is one to be given.
abbrev pub boot_orders : (boot : Bool) → (n : ℕ) → List (Option ℕ)
boot_orders boot zero = []
boot_orders boot (suc n) = (if boot then some 1 else none) ∷ boot_orders false n

volumes-names :
    (pvc_names : List String) (i k : ℕ) (boot : Bool) (ds : List Disk)
    → map (λ d. d.name) (build_disks i boot ds) ≡ map (λ v. v.name) (build_volumes pvc_names i k ds)
unfolding build_disks build_volumes
volumes-names pvc_names i k boot [] = refl
volumes-names pvc_names i k boot (d ∷ ds) = elim (Bool-cases (is_cdrom d)) [
  | inl e ↦ rw e (volumes-names pvc_names (i + 1) k (boot && true) ds)
  | inr e ↦ rw (e, volumes-names pvc_names (i + 1) (k + 1) (boot && false) ds) refl
]

volumes-claims :
    (pvc_names : List String) (i k : ℕ) (ds : List Disk)
    → map (λ v. v.claim) (build_volumes pvc_names i k ds)
      ≡ claims_from pvc_names k (length (filter_data_disks ds))
unfolding build_volumes filter_data_disks
volumes-claims pvc_names i k [] = refl
volumes-claims pvc_names i k (d ∷ ds) = elim (Bool-cases (is_cdrom d)) [
  | inl e ↦ rw e (volumes-claims pvc_names (i + 1) k ds)
  | inr e ↦ rw (e, volumes-claims pvc_names (i + 1) (k + 1) ds) refl
]

and_true : (b : Bool) → (b && true) ≡ b
and_true b = ground arith

and_false : (b : Bool) → (b && false) ≡ false
and_false b = ground arith

disks-boot_orders :
    (i : ℕ) (boot : Bool) (ds : List Disk)
    → map (λ d. d.boot_order) (build_disks i boot ds)
      ≡ boot_orders boot (length (filter_data_disks ds))
unfolding build_disks filter_data_disks
disks-boot_orders i boot [] = refl
disks-boot_orders i boot (d ∷ ds) = elim (Bool-cases (is_cdrom d)) [
  | inl e ↦ rw (e, and_true boot) (disks-boot_orders (i + 1) boot ds)
  | inr e ↦ rw (e, and_false boot, disks-boot_orders (i + 1) false ds) refl
]

disks-buses :
    (i : ℕ) (boot : Bool) (ds : List Disk)
    → map (λ d. d.bus) (build_disks i boot ds)
      ≡ map (λ d. bus_of d.disk_address) (filter_data_disks ds)
unfolding build_disks filter_data_disks
disks-buses i boot [] = refl
disks-buses i boot (d ∷ ds) = elim (Bool-cases (is_cdrom d)) [
  | inl e ↦ rw e (disks-buses (i + 1) (boot && true) ds)
  | inr e ↦ rw (e, disks-buses (i + 1) (boot && false) ds) refl
]

-- No text stands twice.
abbrev pub Distinct : List String → Type 0
Distinct [] = Unit
Distinct (x ∷ xs) = All (λ y. x ≢ y) xs × Distinct xs

-- The name of a volume with an index from `i` on.
abbrev Behind : ℕ → String → Type 0
Behind i name = (j : ℕ) × (i ≤ j) × (name ≡ volume_name j)

volume_name-codes : (i : ℕ) → codes (volume_name i) ≡ codes "disk-" ++ codes (decimal i)
volume_name-codes i =
    codes-append "disk-" (String.◌++◌ (decimal i) "")
    ∙ ap (λ x. codes "disk-" ++ x) (codes-append (decimal i) "" ∙ append-nil (codes (decimal i)))

-- The index can be read from the name.
volume_name-injective : (i j : ℕ) → volume_name i ≡ volume_name j → i ≡ j
volume_name-injective i j e =
    let read = λ (x : List ℕ). number_from 0 (drop 5 x) in
    sym (number_from-decimal i)
    ∙ sym (ap read (volume_name-codes i))
    ∙ ap (λ x. read (codes x)) e
    ∙ ap read (volume_name-codes j)
    ∙ number_from-decimal j

Behind-later : (i : ℕ) (names : List String) → All (Behind (i + 1)) names → All (Behind i) names
Behind-later i [] h = tt
Behind-later i (x ∷ xs) ((j, low, e), h) = ((j, omega (arith, low), e), Behind-later i xs h)

Behind-fresh :
    (i : ℕ) (names : List String) → All (Behind (i + 1)) names → All (λ y. volume_name i ≢ y) names
Behind-fresh i [] h = tt
Behind-fresh i (x ∷ xs) ((j, low, e), h) = (
  (λ same. let q = volume_name-injective i j (same ∙ e) in absurd (omega (arith, low, q))),
  Behind-fresh i xs h,
)

disks-names :
    (i : ℕ) (boot : Bool) (ds : List Disk)
    → let names = map (λ d. d.name) (build_disks i boot ds) in All (Behind i) names × Distinct names
unfolding build_disks
disks-names i boot [] = (tt, tt)
disks-names i boot (d ∷ ds) = elim (Bool-cases (is_cdrom d)) [
  | inl e ↦
      let (later, apart) = disks-names (i + 1) (boot && true) ds in
      rw e (Behind-later i _ later, apart)
  | inr e ↦
      let (later, apart) = disks-names (i + 1) (boot && false) ds in
      rw e (((i, omega arith, refl), Behind-later i _ later), (Behind-fresh i _ later, apart))
]

-- The disks of the VirtualMachine are the data disks of the source, in order, each with the bus of its
-- source; their names are pairwise different, and each has the volume of its name, at its place; the
-- volumes claim the PVCs in their order, and nothing where there are too few; and the first disk alone has
-- a boot order, if the source boots from a disk.
pub build-devices :
    (vm : Vm) (network_map : List NetworkPair) (namespace : String) (pvc_names : List String)
    → let m = build vm network_map namespace pvc_names in
      let data_disks = filter_data_disks vm.disks in
      let n = length data_disks in
      (map (λ d. d.bus) m.disks ≡ map (λ d. bus_of d.disk_address) data_disks)
      × Distinct (map (λ d. d.name) m.disks)
      × (map (λ d. d.name) m.disks ≡ map (λ v. v.name) m.volumes)
      × (map (λ v. v.claim) m.volumes ≡ claims_from pvc_names 0 n)
      × (map (λ d. d.boot_order) m.disks ≡ boot_orders (is_boot_disk vm.boot_config) n)
unfolding build
build-devices vm network_map namespace pvc_names = (
  disks-buses 0 (is_boot_disk vm.boot_config) vm.disks,
  (disks-names 0 (is_boot_disk vm.boot_config) vm.disks).1,
  volumes-names pvc_names 0 0 (is_boot_disk vm.boot_config) vm.disks,
  volumes-claims pvc_names 0 0 vm.disks,
  disks-boot_orders 0 (is_boot_disk vm.boot_config) vm.disks,
)
