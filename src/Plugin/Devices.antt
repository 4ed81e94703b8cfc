-- ===== src/Plugin/Devices.antt =====
-- The device map of deviceplugin.go, the ids that ListAndWatch advertises, and PNetIDFromDevice of
-- internal/drivers/utils_linux.go. A Go map is the list of its values, in any order: the code
-- ranges over it, and nothing may depend on the order.
use alibabacloud_erdma_contr.Prelude.{
  ℕ, zero, suc, ◌+◌, ◌-◌, ◌/◌, ◌%◌, ◌≡◌, ◌≢◌, refl, false, not, ◌&&◌, Option, none, some, List, [],
  ◌∷◌, ◌++◌, map, keep, Text, text_eq, text_eq_iff, split, split-append, Without, ltb, leb, ◌==◌,
  if◌then◌else◌, All, arith, is_empty,
}
use alibabacloud_erdma_contr.Types.{ERdmaDeviceInfo}

abbrev pub DevMap : Type 0
DevMap = List ERdmaDeviceInfo

-- m.devices[name]
unfoldable pub device_named : DevMap → Text → Option ERdmaDeviceInfo
device_named [] name = none
device_named (d ∷ m) name = if text_eq d.name name then some d else device_named m name

-- devMap[d.Name] = d
unfoldable pub put_device : DevMap → ERdmaDeviceInfo → DevMap
put_device [] d = d ∷ []
put_device (e ∷ m) d = if text_eq e.name d.name then d ∷ m else e ∷ put_device m d

unfoldable pub dev_map : DevMap → List ERdmaDeviceInfo → DevMap
dev_map m [] = m
dev_map m (d ∷ ds) = dev_map (put_device m d) ds

-- The decimal digits of a number; `f` bounds their number.
unfoldable pub decimal_fuel : ℕ → ℕ → Text → Text
decimal_fuel zero n rest = rest
decimal_fuel (suc f) n rest =
    let digit = 48 + n % 10 in
    let more = decimal_fuel f (n / 10) (digit ∷ rest) in if ltb n 10 then digit ∷ rest else more

-- `%d`: a number has at most as many digits as its successor counts.
unfoldable pub decimal : ℕ → Text
unfolding decimal_fuel
decimal n = decimal_fuel (suc n) n []

abbrev pub slash : ℕ
slash = b'/'

-- fmt.Sprintf("%s/%d", d.Name, i)
unfoldable pub device_id : ERdmaDeviceInfo → ℕ → Text
device_id d i = d.name ++ slash ∷ decimal i

pub record Advertised : Type 0 where
  pub id : Text
  pub numa : ℕ

abbrev pub ids_per_device : ℕ
ids_per_device = 200

-- The ids from `i` on, `k` of them.
unfoldable pub advertise_from : ERdmaDeviceInfo → ℕ → ℕ → List Advertised
advertise_from d i zero = []
advertise_from d i (suc k) =
    record { id = device_id d i; numa = d.numa } ∷ advertise_from d (suc i) k

-- What ListAndWatch sends, at the start and on every tick.
unfoldable pub advertised : DevMap → List Advertised
advertised [] = []
advertised (d ∷ m) = advertise_from d 0 ids_per_device ++ advertised m

-- devPath[0] of an id with two pieces or more.
unfoldable pub second_piece : List Text → Option Text
second_piece (name ∷ rest) = if is_empty rest then none else some name
second_piece [] = none

unfoldable pub device_of_id : Text → Option Text
unfolding second_piece
device_of_id id = second_piece (split slash id)

unfoldable pub to_upper : ℕ → ℕ
to_upper c = if leb b'a' c && leb c b'z' then c - 32 else c

-- strings.ReplaceAll(strings.ToUpper(mac), ":", ""), of a MAC address in ASCII.
unfoldable pub pnet_id_of_mac : Text → Text
unfolding to_upper
pnet_id_of_mac mac = keep (λ c. not (c == b':')) (map to_upper mac)

split-nonempty : (sep : ℕ) (s : Text) → is_empty (split sep s) ≡ false
unfolding split
split-nonempty sep [] = refl
split-nonempty sep (c ∷ s) = ground (arith, split-nonempty sep s)

-- An id that was advertised for a device leads back to its name, if the name has no slash.
pub device_of_id-device_id :
    (d : ERdmaDeviceInfo) (i : ℕ)
    → Without slash d.name
    → device_of_id (device_id d i) ≡ some d.name
unfolding device_of_id device_id
device_of_id-device_id d i h =
    rw (split-append slash d.name (decimal i) h, split-nonempty slash (decimal i)) refl

-- The name's entry is the last device put under it, and other names keep theirs.
pub device_named-put_device :
    (m : DevMap) (d : ERdmaDeviceInfo) (name : Text)
    → device_named (put_device m d) name
      ≡ (if text_eq d.name name then some d else device_named m name)
unfolding device_named put_device
device_named-put_device [] d name = refl
device_named-put_device (e ∷ m) d name = ground (
  arith,
  text_eq_iff e.name d.name,
  text_eq_iff e.name name,
  text_eq_iff d.name name,
  device_named-put_device m d name,
)

-- A character of a pnet id is no colon and no lower case letter.
abbrev pub IsPnetChar : ℕ → Type 0
IsPnetChar c = (c ≢ b':') × ((leb b'a' c && leb c b'z') ≡ false)

pub pnet_id-chars : (mac : Text) → All IsPnetChar (pnet_id_of_mac mac)
unfolding pnet_id_of_mac
pnet_id-chars [] = tt
pnet_id-chars (c ∷ mac) = ground (arith, pnet_id-chars mac)
