-- ===== src/Driver/Guid.antt =====
-- parseERdmaLinkHwAddr and GetERdmaFromLink of internal/drivers/utils_linux.go: the RDMA link whose
-- node GUID stands for the hardware address of a network link.
pub mod RoundTrip
use Prim.Native.Nat.{bit_xor}
use alibabacloud_erdma_contr.Prelude.{
  ℕ, ◌+◌, ◌-◌, ◌*◌, Bool, true, false, ◌&&◌, Option, none, some, List, [], ◌∷◌, Text, text_eq,
  split, leb, ltb, if◌then◌else◌,
}
use alibabacloud_erdma_contr.Exec.{Res, ok, err, panic, errorf}
use alibabacloud_erdma_contr.Exec.Pure.{◌>>=◌, map_res}

-- An RDMA link of netlink: its name and the text of its node GUID.
pub record RdmaLink : Type 0 where
  pub name : Text
  pub node_guid : Text

unfoldable pub hex_digit : ℕ → Option ℕ
hex_digit c =
    if leb b'0' c && leb c b'9'
    then some (c - b'0')
    else if leb b'a' c && leb c b'f'
    then some (c - b'a' + 10)
    else if leb b'A' c && leb c b'F'
    then some (c - b'A' + 10)
    else none

unfoldable pub hex_value : ℕ → Text → Option ℕ
unfolding hex_digit
hex_value n [] = some n
hex_value n (c ∷ t) = elim (hex_digit c) [ none ↦ none | some d ↦ hex_value (n * 16 + d) t ]

-- strconv.ParseUint(s, 16, 8): a digit or more, of a value that fits a byte.
unfoldable pub parse_byte : Text → Res ℕ
unfolding hex_value
parse_byte [] = err (errorf "invalid rdma guid: %s, err: %v" [])
parse_byte (c ∷ t) = elim (hex_value 0 (c ∷ t)) [
  | none ↦ err (errorf "invalid rdma guid: %s, err: %v" [])
  | some n ↦ if ltb 255 n then err (errorf "invalid rdma guid: %s, err: %v" []) else ok n
]

-- hwAddrSlice[7-i] = byte i, and then the bytes 0, 1, 2 and 5, 6, 7.
unfoldable pub hw_addr_of : List ℕ → Res (List ℕ)
hw_addr_of (b0 ∷ b1 ∷ b2 ∷ b3 ∷ b4 ∷ b5 ∷ b6 ∷ b7 ∷ []) = ok (b7 ∷ b6 ∷ b5 ∷ b2 ∷ b1 ∷ b0 ∷ [])
hw_addr_of _ = err (errorf "invalid rdma guid: %s" [])

abbrev has_eight {ℓ} : {A : Type ℓ} → List A → Bool
has_eight (a ∷ b ∷ c ∷ d ∷ e ∷ f ∷ g ∷ h ∷ []) = true
has_eight _ = false

unfoldable pub parse_erdma_link_hw_addr : Text → Res (List ℕ)
unfolding parse_byte hw_addr_of
parse_erdma_link_hw_addr guid =
    let pieces = split b':' guid in
    if has_eight pieces
    then (do bytes ← map_res parse_byte pieces; hw_addr_of bytes)
    else err (errorf "invalid rdma guid: %s" [])

-- new_linkHwAddr[0] ^= 0x2
unfoldable pub flip_local : List ℕ → Res (List ℕ)
flip_local [] = panic
flip_local (b ∷ bs) = ok (bit_xor b 2 ∷ bs)

-- Two hardware addresses have one text exactly if they have the same bytes.
unfoldable pub find_link : List ℕ → List RdmaLink → Res RdmaLink
find_link addr [] = err (errorf "cannot found rdma link for %s" [])
find_link addr (rl ∷ rls) = elim (parse_erdma_link_hw_addr rl.node_guid) [
  | err e ↦ err e
  | panic ↦ panic
  | ok bytes ↦ elim (text_eq bytes addr) [ true ↦ ok rl | false ↦ find_link addr rls ]
]

-- `links` is the outcome of netlink.RdmaLinkList.
unfoldable pub get_erdma_from_link : List ℕ → Res (List RdmaLink) → Res RdmaLink
unfolding flip_local find_link
get_erdma_from_link hw_addr links = do rls ← links; addr ← flip_local hw_addr; find_link addr rls
