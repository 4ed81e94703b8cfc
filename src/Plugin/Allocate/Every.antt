-- ===== src/Plugin/Allocate/Every.antt =====
-- Allocate where each container asks for all devices (allocAllDevices): a Go map gives its entries in
-- any order, so that the map that the loop ranges over is any permutation of the plugin's.
use alibabacloud_erdma_contr.Prelude.{
  ◌≡◌, ◌≢◌, refl, sym, ◌∙◌, Bool, true, false, Bool-cases, inl, inr, none, some, if◌then◌else◌,
  List, [], ◌∷◌, ◌++◌, head?, is_empty, Text, text_eq_iff, All, arith,
}
use alibabacloud_erdma_contr.Exec.{Res, ok}
use alibabacloud_erdma_contr.Exec.Pure.{through, via, Post-ok}
use alibabacloud_erdma_contr.Types.{ERdmaDeviceInfo}
use alibabacloud_erdma_contr.Plugin.Devices.{DevMap, pnet_id_of_mac}
use alibabacloud_erdma_contr.Plugin.Allocate.{
  Plugin, new_plugin, ContainerResponse, Grant, text_in, grant_all, first_info, smcr_pnet_env,
  device_paths, respond, allocate_from, allocate,
}
use alibabacloud_erdma_contr.Plugin.Allocate.Order.{
  Distinct, dev_map-Distinct, Distinct-Permᴰ, device_paths-Permᴰ, is_empty-Permᴰ,
}
use alibabacloud_erdma_contr.Plugin.Allocate.Laws.{
  AllNamed, grant_all-AllNamed, grant_all_again, grant_container_all,
}
use mathlib.Core.List.{Permᴰ, append_assoc, append-nil}

-- A loop over devices with names of their own that are all free grants each of them.
grant_all-granted :
    (m : DevMap) (g : Grant)
    → Distinct m
    → All (λ (d : ERdmaDeviceInfo). text_in g.occupied d.name ≡ false) m
    → (grant_all m g).granted ≡ g.granted ++ m
unfolding grant_all
grant_all-granted [] g h free = sym (append-nil g.granted)
grant_all-granted (d ∷ m) g h free =
    rw (free.0, grant_all)
      (grant_all-granted m _ h.1 (still_free m h.0 free.1) ∙ append_assoc g.granted (d ∷ []) m)
  where
    still_free :
        (n : DevMap)
        → All (λ (e : ERdmaDeviceInfo). d.name ≢ e.name) n
        → All (λ (e : ERdmaDeviceInfo). text_in g.occupied e.name ≡ false) n
        → All (λ (e : ERdmaDeviceInfo). text_in (d.name ∷ g.occupied) e.name ≡ false) n
    still_free [] a b = tt
    still_free (e ∷ n) a b =
        (ground (arith, a.0, b.0, text_eq_iff d.name e.name), still_free n a.1 b.1)

grant_all-info :
    (m : DevMap) (g : Grant) (d : ERdmaDeviceInfo) → g.info ≡ some d → (grant_all m g).info ≡ some d
unfolding grant_all
grant_all-info [] g d h = h
grant_all-info (e ∷ m) g d h = elim (Bool-cases (text_in g.occupied e.name)) [
  | inl old ↦ rw (old, grant_all) (grant_all-info m g d h)
  | inr new ↦ rw (new, grant_all) (grant_all-info m _ d (rw (h, first_info) refl))
]

-- The containers after one that was granted all devices get no response.
allocate_from_rest :
    (p : Plugin) (requests : List (List Text)) (occ : List Text)
    → p.alloc_all_devices ≡ true
    → p.alloc_rdma_cm ≡ false
    → AllNamed occ p.devices
    → allocate_from p requests occ ≡ ok []
unfolding allocate_from respond
allocate_from_rest p [] occ every cm h = refl
allocate_from_rest p (ids ∷ requests) occ every cm h =
    rw
      (
        grant_container_all p ids occ every,
        grant_all_again p.devices (record { info = none; granted = []; occupied = occ }) h,
        cm,
        allocate_from_rest p requests occ every cm h,
        respond,
        allocate_from,
      )
      refl

-- A response mounts all devices of the plugin, each path once for each device that has it, and
-- names the network of the device that the loop met first.
pub record IsWhole (p : Plugin) (order : DevMap) (r : ContainerResponse) : Type 0 where
  pub mounted : Permᴰ (device_paths p.devices) r.devices
  pub network :
      (d : ERdmaDeviceInfo) × (head? order ≡ some d)
      × (r.envs ≡ (smcr_pnet_env, pnet_id_of_mac d.mac) ∷ [])

abbrev pub at_start : Grant
at_start = record { info = none; granted = []; occupied = [] }

all_free : (m : DevMap) → All (λ (d : ERdmaDeviceInfo). text_in [] d.name ≡ false) m
all_free [] = tt
all_free (d ∷ m) = (refl, all_free m)

grant_all_first : (d : ERdmaDeviceInfo) (m : DevMap) → (grant_all (d ∷ m) at_start).info ≡ some d
unfolding grant_all
grant_all_first d m = grant_all-info m _ d refl

pub grant_all_from_nothing : (m : DevMap) → Distinct m → (grant_all m at_start).granted ≡ m
grant_all_from_nothing m h = grant_all-granted m at_start h (all_free m)

respond_whole :
    (p : Plugin) (d : ERdmaDeviceInfo) (m : DevMap) (g : Grant)
    → p.alloc_rdma_cm ≡ false
    → g.info ≡ some d
    → g.granted ≡ d ∷ m
    → is_empty (device_paths (d ∷ m)) ≡ false
    → respond p g
      ≡ ok (
          record {
            devices = device_paths (d ∷ m);
            envs = (smcr_pnet_env, pnet_id_of_mac d.mac) ∷ [];
          }
          ∷ [])
unfolding respond
respond_whole p d m g cm i s e = rw (i, s, cm, append-nil (device_paths (d ∷ m)), e) refl

-- The plugin of a list of devices has one device to a name, and keeps the flag.
pub new_plugin-Distinct :
    (ds : List ERdmaDeviceInfo) (every prestart cm cm_exists : Bool) (cri : Res (Unit {0}))
    (p : Plugin)
    → new_plugin ds every prestart cm cri cm_exists ≡ ok p
    → Distinct p.devices × (p.alloc_all_devices ≡ every)
unfolding new_plugin
new_plugin-Distinct ds every prestart cm cm_exists cri p h =
    elim (through (if prestart then cri else ok tt) _ h) [
      | via u e f ↦
          Post-ok (λ (q : Plugin). Distinct q.devices × (q.alloc_all_devices ≡ every)) (ok _) f
            (dev_map-Distinct ds [] tt, refl)
    ]

-- If a new plugin gives each container all devices and does not mount rdma_cm, and some device has a
-- path, then Allocate on a request of one container or more answers with one response, for whichever
-- order the loop meets the devices of the map in: the first container's, which mounts the paths
-- of all devices and names the network of the first device met.
pub allocate-IsWhole :
    (ds : List ERdmaDeviceInfo) (prestart cm cm_exists : Bool) (cri : Res (Unit {0})) (p : Plugin)
    (order : DevMap) (ids : List Text) (requests : List (List Text))
    → new_plugin ds true prestart cm cri cm_exists ≡ ok p
    → p.alloc_rdma_cm ≡ false
    → is_empty (device_paths p.devices) ≡ false
    → Permᴰ p.devices order
    → (r : ContainerResponse) × (allocate (record p { devices = order }) (ids ∷ requests)
        ≡ ok (r ∷ []))
      × IsWhole p order r
unfolding allocate allocate_from device_paths
allocate-IsWhole ds prestart cm cm_exists cri p [] ids requests made off some_path o =
    let no_path : true ≡ false = sym (is_empty-Permᴰ (device_paths-Permᴰ o)) ∙ some_path in
    absurd (ground (arith, no_path))
allocate-IsWhole ds prestart cm cm_exists cri p (d ∷ m) ids requests made off some_path o =
    let (apart, every) = new_plugin-Distinct ds true prestart cm cm_exists cri p made in
    let i = grant_all_first d m in
    let s = grant_all_from_nothing (d ∷ m) (Distinct-Permᴰ o apart) in
    let paths = device_paths-Permᴰ o in
    let q : Plugin = record p { devices = d ∷ m } in
    let g = grant_all (d ∷ m) at_start in
    (
      _,
      rw
          (
            grant_container_all q ids [] every,
            respond_whole q d m g off i s (sym (is_empty-Permᴰ paths) ∙ some_path),
            allocate_from_rest q requests g.occupied every off
                (grant_all-AllNamed (d ∷ m) at_start),
          )
          refl,
      record { mounted = paths; network = (d, refl, refl) },
    )
