-- ===== src/Plugin/Allocate/Advertised.antt =====
-- Allocate on the ids that ListAndWatch sent to the kubelet.
use alibabacloud_erdma_contr.Prelude.{
  ◌≡◌, refl, arith, ◌⊎◌, inl, inr, ℕ, zero, suc, Bool, Bool-cases, true, false, ◌||◌, Option, none,
  some, List, [], ◌∷◌, any, any-append, Text, text_eq, text_eq_iff, text_eq_refl, All, All-map,
  Without, if◌then◌else◌,
}
use alibabacloud_erdma_contr.Exec.{Res, ok, err, panic}
use alibabacloud_erdma_contr.Exec.Pure.{◌>>=◌, IsOk, IsOk-bind}
use alibabacloud_erdma_contr.Types.{ERdmaDeviceInfo}
use alibabacloud_erdma_contr.Plugin.Devices.{
  DevMap, Advertised, slash, device_id, advertise_from, ids_per_device, advertised, device_of_id,
  device_named, device_of_id-device_id,
}
use alibabacloud_erdma_contr.Plugin.Allocate.{
  Plugin, Grant, text_in, grant_ids, grant_all, grant_container, first_info, device_paths, respond,
  allocate_from, allocate,
}

abbrev pub HasPlainName : ERdmaDeviceInfo → Type 0
HasPlainName d = Without slash d.name

-- The id is one of those that were sent for the devices.
abbrev pub IsAdvertised : DevMap → Text → Type 0
IsAdvertised m id = any (λ (a : Advertised). text_eq a.id id) (advertised m) ≡ true

-- The id leads to a device of the map.
abbrev IsKnown : DevMap → Text → Type 0
IsKnown m id =
    (name : Text) × (d : ERdmaDeviceInfo) × (device_of_id id ≡ some name)
    × (device_named m name ≡ some d)

advertised_from :
    (d : ERdmaDeviceInfo) (i k : ℕ) (id : Text)
    → any (λ (a : Advertised). text_eq a.id id) (advertise_from d i k) ≡ true
    → (j : ℕ) × (device_id d j ≡ id)
unfolding advertise_from
advertised_from d i zero id h = cc
advertised_from d i (suc k) id h = elim (Bool-cases (text_eq (device_id d i) id)) [
  | inl b ↦ (i, (text_eq_iff (device_id d i) id).0 b)
  | inr b ↦ advertised_from d (suc i) k id (rw b at h)
]

or_cases : (a b : Bool) → (a || b) ≡ true → (a ≡ true) ⊎ (b ≡ true)
or_cases a b h = ground arith

IsKnown-later : (d : ERdmaDeviceInfo) (m : DevMap) (id : Text) → IsKnown m id → IsKnown (d ∷ m) id
unfolding device_named
IsKnown-later d m id (name, e, h, k) = elim (Bool-cases (text_eq d.name name)) [
  | inl b ↦ (name, d, h, rw b refl)
  | inr b ↦ (name, e, h, rw b k)
]

IsAdvertised-IsKnown :
    (m : DevMap) (id : Text) → All HasPlainName m → IsAdvertised m id → IsKnown m id
unfolding advertised device_named
IsAdvertised-IsKnown [] id p h = cc
IsAdvertised-IsKnown (d ∷ m) id p h =
    elim (or_cases _ _
      (rw (any-append _ (advertise_from d 0 ids_per_device) (advertised m)) at h)) [
        | inl k ↦
            let (j, e) = advertised_from d 0 ids_per_device id k in
            (d.name, d, rw e at (device_of_id-device_id d j p.0), rw (text_eq_refl d.name) refl)
        | inr k ↦ IsKnown-later d m id (IsAdvertised-IsKnown m id p.1 k)
      ]

-- Where a device was granted, there is one whose MAC the response takes.
abbrev IsLed : Grant → Type 0
IsLed g = (g.granted ≡ []) ⊎ ((d : ERdmaDeviceInfo) × (g.info ≡ some d))

abbrev GrantsLed : Res Grant → Type 0
GrantsLed (ok g) = IsLed g
GrantsLed _ = ⊥

grant_ids-IsLed :
    (m : DevMap) (ids : List Text) (g : Grant)
    → All (IsKnown m) ids
    → IsLed g
    → GrantsLed (grant_ids m ids g)
unfolding grant_ids
grant_ids-IsLed m [] g k l = l
grant_ids-IsLed m (id ∷ ids) g k l =
    let (name, d, h, n) = k.0 in
    elim (Bool-cases (text_in g.occupied name)) [
      | inl b ↦ rw (h, b, grant_ids) (grant_ids-IsLed m ids g k.1 l)
      | inr b ↦ rw (h, b, n, grant_ids) (grant_ids-IsLed m ids _ k.1 (inr (d, refl)))
    ]

first_info-some :
    (o : Option ERdmaDeviceInfo) (d : ERdmaDeviceInfo)
    → (e : ERdmaDeviceInfo) × (first_info o d ≡ some e)
first_info-some none d = (d, refl)
first_info-some (some e) d = (e, refl)

grant_all-IsLed : (m : DevMap) (g : Grant) → IsLed g → IsLed (grant_all m g)
unfolding grant_all
grant_all-IsLed [] g l = l
grant_all-IsLed (d ∷ m) g l = elim (Bool-cases (text_in g.occupied d.name)) [
  | inl b ↦ rw (b, grant_all) (grant_all-IsLed m g l)
  | inr b ↦ rw (b, grant_all) (grant_all-IsLed m _ (inr (first_info-some g.info d)))
]

grant_container-IsLed :
    (p : Plugin) (ids occupied : List Text)
    → All (IsKnown p.devices) ids
    → GrantsLed (grant_container p ids occupied)
unfolding grant_container
grant_container-IsLed p ids occupied k = elim (Bool-cases p.alloc_all_devices) [
  | inl b ↦ rw b (grant_all-IsLed p.devices _ (inl refl))
  | inr b ↦ rw b (grant_ids-IsLed p.devices ids _ k (inl refl))
]

either_IsOk : {A : Type 0} (b : Bool) (x y : A) → IsOk (if b then ok x else ok y)
either_IsOk true x y = tt
either_IsOk false x y = tt

respond-IsOk : (p : Plugin) (g : Grant) → p.alloc_rdma_cm ≡ false → IsLed g → IsOk (respond p g)
unfolding respond device_paths
respond-IsOk p g c (inl e) = rw (e, c, respond) tt
respond-IsOk p g c (inr (d, e)) = rw (e, respond) (either_IsOk _ _ _)

GrantsLed-bind :
    {B : Type 0} (m : Res Grant) (f : Grant → Res B)
    → GrantsLed m
    → ((g : Grant) → IsLed g → IsOk (f g))
    → IsOk (m >>= f)
GrantsLed-bind (ok g) f l k = k g l
GrantsLed-bind (err e) f l k = absurd l
GrantsLed-bind panic f l k = absurd l

allocate_from-IsOk :
    (p : Plugin) (requests : List (List Text)) (occupied : List Text)
    → All (All (IsKnown p.devices)) requests
    → p.alloc_rdma_cm ≡ false
    → IsOk (allocate_from p requests occupied)
unfolding allocate_from
allocate_from-IsOk p [] occupied k c = tt
allocate_from-IsOk p (ids ∷ requests) occupied k c =
    GrantsLed-bind _ _ (grant_container-IsLed p ids occupied k.0) λ g l.
      IsOk-bind _ _ (respond-IsOk p g c l)
        λ here. IsOk-bind _ _ (allocate_from-IsOk p requests g.occupied k.1 c) (λ rest. tt)

-- Of a plugin whose devices have names without a slash and that does not mount rdma_cm, Allocate
-- never panics and never fails on the ids that ListAndWatch sent, in any containers and in any
-- number.
pub allocate-IsOk :
    (p : Plugin) (requests : List (List Text))
    → All HasPlainName p.devices
    → All (All (IsAdvertised p.devices)) requests
    → p.alloc_rdma_cm ≡ false
    → IsOk (allocate p requests)
unfolding allocate
allocate-IsOk p requests n a c =
    allocate_from-IsOk p requests []
      (All-map _ _ requests
        (λ ids k. All-map _ _ ids (λ id h. IsAdvertised-IsKnown p.devices id n h) k) a)
      c
