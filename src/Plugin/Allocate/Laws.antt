-- ===== src/Plugin/Allocate/Laws.antt =====
-- What a container of an Allocate request is granted, and where Allocate panics.
use alibabacloud_erdma_contr.Prelude.{
  ◌≡◌, refl, sym, subst, true, false, Bool-cases, Option-cases, inl, inr, Option, none, some, List,
  [], ◌∷◌, ◌++◌, is_empty, Text, text_eq_iff, text_eq_refl, All, All-append, All-map, arith,
}
use alibabacloud_erdma_contr.Exec.{ok, panic}
use alibabacloud_erdma_contr.Exec.Pure.{Post, Post-ok}
use alibabacloud_erdma_contr.Types.{ERdmaDeviceInfo}
use alibabacloud_erdma_contr.Plugin.Devices.{DevMap, device_named, device_of_id}
use alibabacloud_erdma_contr.Plugin.Allocate.{
  Plugin, ContainerResponse, Grant, text_in, grant_ids, grant_all, first_info, grant_container,
  rw_device, rdma_cm_device, device_paths, respond, allocate_from, allocate,
}

-- The devices granted so far were free at the start, in `occ`, and are taken now.
abbrev pub IsTaken : List Text → List Text → ERdmaDeviceInfo → Type 0
IsTaken occ now d = (text_in occ d.name ≡ false) × (text_in now d.name ≡ true)

pub record Fresh (occ : List Text) (g : Grant) : Type 0 where
  pub kept : (n : Text) → text_in occ n ≡ true → text_in g.occupied n ≡ true
  pub taken : All (IsTaken occ g.occupied) g.granted

device_named-name :
    (m : DevMap) (name : Text) (d : ERdmaDeviceInfo) → device_named m name ≡ some d → d.name ≡ name
unfolding device_named
device_named-name [] name d h = cc
device_named-name (e ∷ m) name d h =
    ground (arith, text_eq_iff e.name name, device_named-name m name d)

pub not_before :
    (occ : List Text) (g : Grant) (n : Text)
    → Fresh occ g
    → text_in g.occupied n ≡ false
    → text_in occ n ≡ false
not_before occ g n f h = ground (arith, f.kept n)

take-Fresh :
    (occ : List Text) (g : Grant) (d : ERdmaDeviceInfo) (info : Option ERdmaDeviceInfo)
    → Fresh occ g
    → text_in g.occupied d.name ≡ false
    → Fresh occ
        (record { info = info; granted = g.granted ++ d ∷ []; occupied = d.name ∷ g.occupied })
take-Fresh occ g d info f h = record {
  kept = λ n k. ground (arith, f.kept n);
  taken =
      All-append (IsTaken occ (d.name ∷ g.occupied)) g.granted (d ∷ [])
        (All-map (IsTaken occ g.occupied) (IsTaken occ (d.name ∷ g.occupied)) g.granted
          (λ e t. (t.0, ground arith)) f.taken)
        ((not_before occ g d.name f h, ground (arith, text_eq_refl d.name)), tt);
}

grant_ids-Fresh :
    (m : DevMap) (occ : List Text) (ids : List Text) (g : Grant)
    → Fresh occ g
    → Post (Fresh occ) (grant_ids m ids g)
unfolding grant_ids
grant_ids-Fresh m occ [] g f = f
grant_ids-Fresh m occ (id ∷ ids) g f = elim (Option-cases (device_of_id id)) [
  | inl skip ↦ rw (skip, grant_ids) (grant_ids-Fresh m occ ids g f)
  | inr (name, known) ↦ elim (Bool-cases (text_in g.occupied name)) [
    | inl old ↦ rw (known, old, grant_ids) (grant_ids-Fresh m occ ids g f)
    | inr new ↦ elim (Option-cases (device_named m name)) [
      | inl gone ↦ rw (known, new, gone, grant_ids) tt
      | inr (d, found) ↦
          let same = device_named-name m name d found in
          rw (known, new, found, grant_ids)
            (grant_ids-Fresh m occ ids _
              (rw (← same) (take-Fresh occ g d _ f (rw (← same) at new))))
    ]
  ]
]

grant_all-Fresh :
    (occ : List Text) (m : DevMap) (g : Grant) → Fresh occ g → Fresh occ (grant_all m g)
unfolding grant_all
grant_all-Fresh occ [] g f = f
grant_all-Fresh occ (d ∷ m) g f = elim (Bool-cases (text_in g.occupied d.name)) [
  | inl old ↦ rw (old, grant_all) (grant_all-Fresh occ m g f)
  | inr new ↦ rw (new, grant_all) (grant_all-Fresh occ m _ (take-Fresh occ g d _ f new))
]

start-Fresh : (occ : List Text) → Fresh occ (record { info = none; granted = []; occupied = occ })
start-Fresh occ = record { kept = λ n k. k; taken = tt }

pub grant_container-Fresh :
    (p : Plugin) (ids occ : List Text) (g : Grant) → grant_container p ids occ ≡ ok g → Fresh occ g
unfolding grant_container
grant_container-Fresh p ids occ g h = elim (Bool-cases p.alloc_all_devices) [
  | inl every ↦
      Post-ok (Fresh occ) (grant_container p ids occ) h
        (rw (every, grant_container) (grant_all-Fresh occ p.devices _ (start-Fresh occ)))
  | inr named ↦
      Post-ok (Fresh occ) (grant_container p ids occ) h
        (rw (named, grant_container) (grant_ids-Fresh p.devices occ ids _ (start-Fresh occ)))
]

nonempty_snoc {ℓ} : {A : Type ℓ} (xs : List A) (y : A) → is_empty (xs ++ y ∷ []) ≡ false
nonempty_snoc [] y = refl
nonempty_snoc (x ∷ xs) y = refl

-- A container that is granted no device makes Allocate panic, if rdma_cm is to be mounted.
respond_nothing :
    (p : Plugin) (g : Grant) → p.alloc_rdma_cm ≡ true → g.info ≡ none → respond p g ≡ panic
unfolding respond
respond_nothing p g cm none' =
    ground (arith, nonempty_snoc (device_paths g.granted) (rw_device rdma_cm_device))

respond-some :
    (p : Plugin) (g : Grant) (d : ERdmaDeviceInfo)
    → p.alloc_rdma_cm ≡ true
    → g.info ≡ some d
    → (here : List ContainerResponse) × (respond p g ≡ ok here)
unfolding respond
respond-some p g d cm some' =
    rw (some', cm, nonempty_snoc (device_paths g.granted) (rw_device rdma_cm_device), respond)
      (_, refl)

grant_all-occupied :
    (m : DevMap) (g : Grant) (n : Text)
    → text_in g.occupied n ≡ true
    → text_in (grant_all m g).occupied n ≡ true
unfolding grant_all
grant_all-occupied [] g n h = h
grant_all-occupied (d ∷ m) g n h = elim (Bool-cases (text_in g.occupied d.name)) [
  | inl old ↦ rw (old, grant_all) (grant_all-occupied m g n h)
  | inr new ↦ rw (new, grant_all) (grant_all-occupied m _ n (ground arith))
]

-- A step of the loop goes on from a state in which the device is taken.
grant_all_step :
    (d : ERdmaDeviceInfo) (m : DevMap) (g : Grant)
    → (g' : Grant) × (text_in g'.occupied d.name ≡ true) × (grant_all (d ∷ m) g ≡ grant_all m g')
unfolding grant_all
grant_all_step d m g = elim (Bool-cases (text_in g.occupied d.name)) [
  | inl old ↦ (g, old, rw (old, grant_all))
  | inr new ↦ (
    record {
      info = first_info g.info d;
      granted = g.granted ++ d ∷ [];
      occupied = d.name ∷ g.occupied;
    },
    ground (arith, text_eq_refl d.name),
    rw (new, grant_all) refl,
  )
]

-- After one grant of all devices nothing is left for another.
abbrev pub AllNamed : List Text → DevMap → Type 0
AllNamed occ m = All (λ (d : ERdmaDeviceInfo). text_in occ d.name ≡ true) m

pub grant_all-AllNamed : (m : DevMap) (g : Grant) → AllNamed (grant_all m g).occupied m
grant_all-AllNamed [] g = tt
grant_all-AllNamed (d ∷ m) g =
    let (g', held, e) = grant_all_step d m g in
    subst (λ (k : Grant). AllNamed k.occupied (d ∷ m)) (sym e)
      (grant_all-occupied m g' d.name held, grant_all-AllNamed m g')

pub grant_all_again : (m : DevMap) (g : Grant) → AllNamed g.occupied m → grant_all m g ≡ g
unfolding grant_all
grant_all_again [] g h = refl
grant_all_again (d ∷ m) g h = ground (arith, grant_all_again m g h.1)

pub grant_container_all :
    (p : Plugin) (ids occ : List Text)
    → p.alloc_all_devices ≡ true
    → grant_container p ids occ
      ≡ ok (grant_all p.devices (record { info = none; granted = []; occupied = occ }))
unfolding grant_container
grant_container_all p ids occ every = ground arith

-- With all devices given to each container and rdma_cm mounted beside them, a request with two or
-- more containers panics, whatever the devices are.
pub allocate_all_panics :
    (p : Plugin) (a b : List Text) (rest : List (List Text))
    → p.alloc_all_devices ≡ true
    → p.alloc_rdma_cm ≡ true
    → allocate p (a ∷ b ∷ rest) ≡ panic
unfolding allocate allocate_from
allocate_all_panics p a b rest every cm =
    let g = grant_all p.devices (record { info = none; granted = []; occupied = [] }) in
    let again : Grant = record { info = none; granted = []; occupied = g.occupied } in
    let same = grant_all_again p.devices again (grant_all-AllNamed p.devices _) in
    elim (Option-cases g.info) [
      | inl none' ↦ rw (grant_container_all p a [] every, respond_nothing p g cm none') refl
      | inr (d, some') ↦
          let (here, served) = respond-some p g d cm some' in
          rw
            (
              grant_container_all p a [] every,
              served,
              grant_container_all p b g.occupied every,
              same,
              respond_nothing p again cm refl,
            )
            refl
    ]
