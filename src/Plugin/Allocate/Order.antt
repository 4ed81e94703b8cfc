-- ===== src/Plugin/Allocate/Order.antt =====
-- The device map: one device to a name, whatever order its entries come in.
use alibabacloud_erdma_contr.Prelude.{
  ◌≡◌, ◌≢◌, refl, sym, ◌∙◌, subst, Bool-cases, inl, inr, ◌⊎◌, Text, some, List, [], ◌∷◌, ◌++◌, map,
  is_empty, text_eq, text_eq_iff, All, arith,
}
use alibabacloud_erdma_contr.Types.{ERdmaDeviceInfo}
use alibabacloud_erdma_contr.Plugin.Devices.{
  DevMap, device_named, put_device, dev_map, device_named-put_device,
}
use alibabacloud_erdma_contr.Plugin.Allocate.{rw_device, device_paths}
use mathlib.Core.List.{Permᴰ, append_assoc}
use mathlib.Core.List.Permᴰ

-- No two devices of the map have one name.
abbrev pub Distinct : DevMap → Type 0
Distinct [] = Unit
Distinct (d ∷ m) = All (λ e. d.name ≢ e.name) m × Distinct m

put_device-Apart :
    (c d : ERdmaDeviceInfo) (m : DevMap)
    → c.name ≢ d.name
    → All (λ e. c.name ≢ e.name) m
    → All (λ e. c.name ≢ e.name) (put_device m d)
unfolding put_device
put_device-Apart c d [] n h = (n, tt)
put_device-Apart c d (e ∷ m) n h = elim (Bool-cases (text_eq e.name d.name)) [
  | inl same ↦ rw (same, put_device) (n, h.1)
  | inr other ↦ rw (other, put_device) (h.0, put_device-Apart c d m n h.1)
]

put_device-Distinct : (m : DevMap) (d : ERdmaDeviceInfo) → Distinct m → Distinct (put_device m d)
unfolding put_device
put_device-Distinct [] d h = (tt, tt)
put_device-Distinct (e ∷ m) d h = elim (Bool-cases (text_eq e.name d.name)) [
  | inl same ↦
      let names : e.name ≡ d.name = ground (arith, same, text_eq_iff e.name d.name) in
      rw (same, put_device) (subst (λ n. All (λ c. n ≢ c.name) m) names h.0, h.1)
  | inr other ↦
      rw (other, put_device)
        (
          put_device-Apart e d m (λ k. ground (arith, other, text_eq_iff e.name d.name, k)) h.0,
          put_device-Distinct m d h.1,
        )
]

pub dev_map-Distinct :
    (ds : List ERdmaDeviceInfo) (m : DevMap) → Distinct m → Distinct (dev_map m ds)
unfolding dev_map
dev_map-Distinct [] m h = h
dev_map-Distinct (d ∷ ds) m h = dev_map-Distinct ds (put_device m d) (put_device-Distinct m d h)

put_device-All {κ} :
    (P : ERdmaDeviceInfo → Type κ) (m : DevMap) (d : ERdmaDeviceInfo)
    → P d
    → All P m
    → All P (put_device m d)
unfolding put_device
put_device-All P [] d h a = (h, tt)
put_device-All P (e ∷ m) d h a = elim (Bool-cases (text_eq e.name d.name)) [
  | inl same ↦ rw (same, put_device) (h, a.1)
  | inr other ↦ rw (other, put_device) (a.0, put_device-All P m d h a.1)
]

-- What holds of the devices of a list holds of those in its map.
pub dev_map-All {κ} :
    (P : ERdmaDeviceInfo → Type κ) (ds : List ERdmaDeviceInfo) (m : DevMap)
    → All P m
    → All P ds
    → All P (dev_map m ds)
unfolding dev_map
dev_map-All P [] m a h = a
dev_map-All P (d ∷ ds) m a h = dev_map-All P ds (put_device m d) (put_device-All P m d h.0 a) h.1

abbrev pub HasDevice : DevMap → Text → Type 0
HasDevice m name = (d : ERdmaDeviceInfo) × (device_named m name ≡ some d)

put_device-HasDevice :
    (m : DevMap) (d : ERdmaDeviceInfo) (name : Text)
    → (d.name ≡ name) ⊎ HasDevice m name
    → HasDevice (put_device m d) name
put_device-HasDevice m d name h = elim (Bool-cases (text_eq d.name name)) [
  | inl same ↦ (d, device_named-put_device m d name ∙ rw same refl)
  | inr other ↦ elim h [
    | inl same ↦ absurd (ground (arith, text_eq_iff d.name name, same, other))
    | inr (e, found) ↦ (e, device_named-put_device m d name ∙ rw (other, found) refl)
  ]
]

dev_map-keeps :
    (ds : List ERdmaDeviceInfo) (m : DevMap) (name : Text)
    → HasDevice m name
    → HasDevice (dev_map m ds) name
unfolding dev_map
dev_map-keeps [] m name h = h
dev_map-keeps (d ∷ ds) m name h =
    dev_map-keeps ds (put_device m d) name (put_device-HasDevice m d name (inr h))

-- Each name of the list has a device in its map.
pub dev_map-HasDevice :
    (ds : List ERdmaDeviceInfo) (m : DevMap)
    → All (λ (d : ERdmaDeviceInfo). HasDevice (dev_map m ds) d.name) ds
unfolding dev_map
dev_map-HasDevice [] m = tt
dev_map-HasDevice (d ∷ ds) m = (
  dev_map-keeps ds (put_device m d) d.name (put_device-HasDevice m d d.name (inl refl)),
  dev_map-HasDevice ds (put_device m d),
)

All-Permᴰ {ℓ κ} : {A : Type ℓ} (P : A → Type κ) {xs ys : List A} → Permᴰ xs ys → All P xs → All P ys
All-Permᴰ P Permᴰ.nil h = h
All-Permᴰ P (Permᴰ.cons e d) h = (subst P e h.0, All-Permᴰ P d h.1)
All-Permᴰ P (Permᴰ.swap e f) h = (subst P f h.1.0, (subst P e h.0, h.1.1))
All-Permᴰ P (Permᴰ.trans d e) h = All-Permᴰ P e (All-Permᴰ P d h)

pub Distinct-Permᴰ : {m n : DevMap} → Permᴰ m n → Distinct m → Distinct n
Distinct-Permᴰ Permᴰ.nil h = h
Distinct-Permᴰ (Permᴰ.cons {l₂ = n} e d) h = (
  subst (λ (c : ERdmaDeviceInfo). All (λ x. c.name ≢ x.name) n) e (All-Permᴰ _ d h.0),
  Distinct-Permᴰ d h.1,
)
Distinct-Permᴰ (Permᴰ.swap {a = a} {b = b} {l = m} e f) h =
    subst Distinct (λ i. f i ∷ e i ∷ m) ((λ k. h.0.0 (sym k), h.1.0), (h.0.1, h.1.1))
Distinct-Permᴰ (Permᴰ.trans d e) h = Distinct-Permᴰ e (Distinct-Permᴰ d h)

swap_append {ℓ} : {A : Type ℓ} (xs ys zs : List A) → Permᴰ (xs ++ (ys ++ zs)) (ys ++ (xs ++ zs))
swap_append xs ys zs =
    subst (λ l. Permᴰ l (ys ++ (xs ++ zs))) (append_assoc xs ys zs)
      (subst (Permᴰ ((xs ++ ys) ++ zs)) (append_assoc ys xs zs)
        (Permᴰ.append_right zs (Permᴰ.append_comm xs ys)))

-- The paths of the devices in another order are the same paths in another order.
pub device_paths-Permᴰ : {m n : DevMap} → Permᴰ m n → Permᴰ (device_paths m) (device_paths n)
unfolding device_paths
device_paths-Permᴰ Permᴰ.nil = Permᴰ.nil
device_paths-Permᴰ (Permᴰ.cons {a = a} {l₁ = m} {l₂ = n} e d) =
    subst (λ (c : ERdmaDeviceInfo). Permᴰ (device_paths (a ∷ m)) (device_paths (c ∷ n))) e
      (Permᴰ.append_left (map rw_device a.dev_paths) (device_paths-Permᴰ d))
device_paths-Permᴰ (Permᴰ.swap {a = a} {b = b} {l = m} e f) =
    subst (λ n. Permᴰ (device_paths (a ∷ b ∷ m)) (device_paths n)) (λ i. f i ∷ e i ∷ m)
      (swap_append (map rw_device a.dev_paths) (map rw_device b.dev_paths) (device_paths m))
device_paths-Permᴰ (Permᴰ.trans d e) = Permᴰ.trans (device_paths-Permᴰ d) (device_paths-Permᴰ e)

pub is_empty-Permᴰ {ℓ} : {A : Type ℓ} {xs ys : List A} → Permᴰ xs ys → is_empty xs ≡ is_empty ys
is_empty-Permᴰ Permᴰ.nil = refl
is_empty-Permᴰ (Permᴰ.cons e d) = refl
is_empty-Permᴰ (Permᴰ.swap e f) = refl
is_empty-Permᴰ (Permᴰ.trans d e) = is_empty-Permᴰ d ∙ is_empty-Permᴰ e
