-- ===== src/Plugin/PreStart/Network.antt =====
-- The device whose network PreStartContainer sets up is one that Allocate mounts for the same ids.
use alibabacloud_erdma_contr.Prelude.{
  ◌≡◌, sym, ap, subst, ◌∙◌, Bool, true, Bool-cases, Option-cases, inl, inr, Option, none, some,
  List, [], ◌∷◌, ◌++◌, Text, text_eq, text_eq_iff, arith,
}
use alibabacloud_erdma_contr.Exec.{Res, ok}
use alibabacloud_erdma_contr.Exec.Pure.{Post, Post-ok}
use alibabacloud_erdma_contr.Types.{ERdmaDeviceInfo}
use alibabacloud_erdma_contr.Plugin.Devices.{DevMap, device_named, device_of_id}
use alibabacloud_erdma_contr.Plugin.Allocate.{
  Plugin, Grant, text_in, grant_ids, grant_container, new_plugin,
}
use alibabacloud_erdma_contr.Plugin.Allocate.Every.{
  at_start, grant_all_from_nothing, new_plugin-Distinct,
}
use alibabacloud_erdma_contr.Plugin.PreStart.{last_device}
use mathlib.Core.Option.{some-injective}
use mathlib.Core.List.{Mem, mem-cons_self, mem-cons_of_mem, mem-append_left, mem-append_right}

device_named-Mem :
    (m : DevMap) (name : Text) (d : ERdmaDeviceInfo) → device_named m name ≡ some d → Mem d m
unfolding device_named
device_named-Mem [] name d h = cc
device_named-Mem (e ∷ m) name d h = elim (Bool-cases (text_eq e.name name)) [
  | inl same ↦
      subst (λ x. Mem x (e ∷ m)) (some-injective _ _ (ground (arith, h, same))) mem-cons_self
  | inr other ↦ mem-cons_of_mem e (device_named-Mem m name d (ground (arith, h, other)))
]

-- The devices of the names that are taken have been granted.
abbrev Held : DevMap → Grant → Type 0
Held m g =
    (n : Text) (d : ERdmaDeviceInfo)
    → text_in g.occupied n ≡ true
    → device_named m n ≡ some d
    → Mem d g.granted

take-Held :
    (m : DevMap) (g : Grant) (name : Text) (d : ERdmaDeviceInfo) (info : Option ERdmaDeviceInfo)
    → device_named m name ≡ some d
    → Held m g
    → Held m (record { info = info; granted = g.granted ++ d ∷ []; occupied = name ∷ g.occupied })
take-Held m g name d info found h n e taken known = elim (Bool-cases (text_eq name n)) [
  | inl same ↦
      let names : name ≡ n = ground (arith, same, text_eq_iff name n) in
      let d≡e = some-injective _ _ (sym found ∙ ap (device_named m) names ∙ known) in
      mem-append_right g.granted (subst (λ x. Mem x (d ∷ [])) d≡e mem-cons_self)
  | inr other ↦ mem-append_left (d ∷ []) (h n e (ground (arith, taken, other)) known)
]

-- `info` is what PreStartContainer has found so far, and a device that Allocate has granted.
grant_ids-last_device :
    (m : DevMap) (ids : List Text) (g : Grant) (info : Option ERdmaDeviceInfo) (e : ERdmaDeviceInfo)
    → Held m g
    → ((d : ERdmaDeviceInfo) → info ≡ some d → Mem d g.granted)
    → last_device m ids info ≡ some e
    → Post (λ (h : Grant). Mem e h.granted) (grant_ids m ids g)
unfolding grant_ids last_device
grant_ids-last_device m [] g info e h k l = k e l
grant_ids-last_device m (id ∷ ids) g info e h k l = elim (Option-cases (device_of_id id)) [
  | inl skip ↦
      rw (skip, grant_ids) (grant_ids-last_device m ids g info e h k (rw (skip, last_device) at l))
  | inr (name, known) ↦
      let l' : last_device m ids (device_named m name) ≡ some e = rw (known, last_device) at l in
      elim (Bool-cases (text_in g.occupied name)) [
        | inl old ↦
            rw (known, old, grant_ids)
              (grant_ids-last_device m ids g (device_named m name) e h (λ d f. h name d old f) l')
        | inr new ↦ elim (Option-cases (device_named m name)) [
          | inl gone ↦ rw (known, new, gone, grant_ids) tt
          | inr (d, found) ↦
              rw (known, new, found, grant_ids)
                (grant_ids-last_device m ids _ (some d) e (take-Held m g name d (some d) found h)
                  (λ c f.
                    mem-append_right g.granted
                      (subst (λ x. Mem x (d ∷ [])) (some-injective _ _ f) mem-cons_self))
                  (rw found at l'))
        ]
      ]
]

last_device-Mem :
    (m : DevMap) (ids : List Text) (info : Option ERdmaDeviceInfo) (e : ERdmaDeviceInfo)
    → ((d : ERdmaDeviceInfo) → info ≡ some d → Mem d m)
    → last_device m ids info ≡ some e
    → Mem e m
unfolding last_device
last_device-Mem m [] info e k h = k e h
last_device-Mem m (id ∷ ids) info e k h = elim (Option-cases (device_of_id id)) [
  | inl skip ↦ last_device-Mem m ids info e k (rw (skip, last_device) at h)
  | inr (name, known) ↦
      last_device-Mem m ids (device_named m name) e (device_named-Mem m name)
        (rw (known, last_device) at h)
]

-- The device that PreStartContainer takes the network from has been granted to a container that
-- is the first of its request, whichever way of granting is on.
pub last_device-Granted :
    (ds : List ERdmaDeviceInfo) (every prestart cm cm_exists : Bool) (cri : Res (Unit {0}))
    (p : Plugin) (ids : List Text) (g : Grant) (d : ERdmaDeviceInfo)
    → new_plugin ds every prestart cm cri cm_exists ≡ ok p
    → grant_container p ids [] ≡ ok g
    → last_device p.devices ids none ≡ some d
    → Mem d g.granted
unfolding grant_container
last_device-Granted ds every prestart cm cm_exists cri p ids g d made granted h =
    Post-ok (λ (k : Grant). Mem d k.granted) (grant_container p ids []) granted
      (elim (Bool-cases p.alloc_all_devices) [
        | inl all_on ↦
            let (apart, same) = new_plugin-Distinct ds every prestart cm cm_exists cri p made in
            rw (all_on, grant_container, grant_all_from_nothing p.devices apart)
              (last_device-Mem p.devices ids none d (λ x e. cc) h)
        | inr named ↦
            rw (named, grant_container)
              (grant_ids-last_device p.devices ids at_start none d (λ n e t. cc) (λ e t. cc) h)
      ])
