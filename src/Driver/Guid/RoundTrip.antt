-- ===== src/Driver/Guid/RoundTrip.antt =====
-- The node GUID that belongs to a hardware address, as the kernel prints it, leads back to it.
use Prim.Native.Nat.{bit_xor}
use alibabacloud_erdma_contr.Prelude.{
  ℕ, zero, suc, ◌+◌, ◌-◌, ◌/◌, ◌%◌, ◌<◌, ◌≡◌, ◌≢◌, refl, ap, ◌∙◌, Bool, true, false, ◌&&◌, List, [],
  ◌∷◌, ◌++◌, map, Text, text_eq, text_eq_refl, text_eq_iff, split, split-append, split-Without,
  Without, All, all, ltb, ◌==◌, if◌then◌else◌, arith, not,
}
use alibabacloud_erdma_contr.Exec.{ok, err, panic}
use alibabacloud_erdma_contr.Exec.Pure.{map_res}
use alibabacloud_erdma_contr.Driver.Guid.{
  RdmaLink, parse_byte, hw_addr_of, parse_erdma_link_hw_addr, flip_local, find_link,
  get_erdma_from_link,
}

hex_char : ℕ → ℕ
hex_char d = if ltb d 10 then b'0' + d else b'a' + d - 10

-- `%02x`
pub hex_byte : ℕ → Text
unfolding hex_char
hex_byte b = hex_char (b / 16) ∷ hex_char (b % 16) ∷ []

reads_back : ℕ → Bool
unfolding hex_byte parse_byte
reads_back b =
    elim (parse_byte (hex_byte b)) [ ok n ↦ n == b | err e ↦ false | panic ↦ false ]
    && all (λ c. not (c == b':')) (hex_byte b)

all_below : ℕ → (ℕ → Bool) → Bool
all_below zero p = true
all_below (suc n) p = p n && all_below n p

all_below_lem : (n : ℕ) (p : ℕ → Bool) (x : ℕ) → all_below n p ≡ true → x < n → p x ≡ true
unfolding all_below
all_below_lem zero p x h l = absurd (omega arith)
all_below_lem (suc n) p x h l = ground (arith, all_below_lem n p x)

byte_table : all_below 256 reads_back ≡ true
unfolding all_below reads_back
byte_table = refl

read_back :
    (b : ℕ) → reads_back b ≡ true → (parse_byte (hex_byte b) ≡ ok b) × Without b':' (hex_byte b)
unfolding reads_back hex_byte
read_back b h = ground arith

parse_byte-hex_byte :
    (b : ℕ) → b < 256 → (parse_byte (hex_byte b) ≡ ok b) × Without b':' (hex_byte b)
parse_byte-hex_byte b l = read_back b (all_below_lem 256 reads_back b byte_table l)

-- A text from pieces, with a separator after each but the last.
pub join : ℕ → Text → List Text → Text
join sep s [] = s
join sep s (t ∷ ts) = s ++ sep ∷ join sep t ts

split-join :
    (sep : ℕ) (s : Text) (ts : List Text)
    → All (Without sep) (s ∷ ts)
    → split sep (join sep s ts) ≡ s ∷ ts
unfolding join
split-join sep s [] h = split-Without sep s h.0
split-join sep s (t ∷ ts) h =
    split-append sep s (join sep t ts) h.0 ∙ ap (◌∷◌ s) (split-join sep t ts h.1)

-- The GUID of the address m0 … m5: ff:fe between its halves, the bit of a local address flipped,
-- and the bytes from the last to the first.
pub guid_of : ℕ → ℕ → ℕ → ℕ → ℕ → ℕ → Text
guid_of m0 m1 m2 m3 m4 m5 = join b':' (hex_byte m5) (
    hex_byte m4
    ∷ hex_byte m3
    ∷ hex_byte 254
    ∷ hex_byte 255
    ∷ hex_byte m2
    ∷ hex_byte m1
    ∷ hex_byte m0
    ∷ [])

pub split-guid_of :
    (m0 m1 m2 m3 m4 m5 : ℕ)
    → All (λ b. b < 256) (m0 ∷ m1 ∷ m2 ∷ m3 ∷ m4 ∷ m5 ∷ [])
    → split b':' (guid_of m0 m1 m2 m3 m4 m5)
      ≡ map hex_byte (m5 ∷ m4 ∷ m3 ∷ 254 ∷ 255 ∷ m2 ∷ m1 ∷ m0 ∷ [])
unfolding guid_of
split-guid_of m0 m1 m2 m3 m4 m5 (h0, (h1, (h2, (h3, (h4, (h5, u)))))) =
    let w : (b : ℕ) → b < 256 → Without b':' (hex_byte b) = λ b l. (parse_byte-hex_byte b l).1 in
    split-join b':' (hex_byte m5) _ (
      w m5 h5,
      (
        w m4 h4,
        (
          w m3 h3,
          (w 254 (omega arith), (w 255 (omega arith), (w m2 h2, (w m1 h1, (w m0 h0, tt))))),
        ),
      ),
    )

map_res-hex_byte :
    (bs : List ℕ) → All (λ b. b < 256) bs → map_res parse_byte (map hex_byte bs) ≡ ok bs
unfolding map_res
map_res-hex_byte [] h = refl
map_res-hex_byte (b ∷ bs) h = ground (arith, (parse_byte-hex_byte b h.0).0, map_res-hex_byte bs h.1)

-- The node GUID of six bytes below 256, read by `parse_erdma_link_hw_addr`, gives those bytes.
pub parse_erdma_link_hw_addr-guid_of :
    (m0 m1 m2 m3 m4 m5 : ℕ)
    → All (λ b. b < 256) (m0 ∷ m1 ∷ m2 ∷ m3 ∷ m4 ∷ m5 ∷ [])
    → parse_erdma_link_hw_addr (guid_of m0 m1 m2 m3 m4 m5) ≡ ok (m0 ∷ m1 ∷ m2 ∷ m3 ∷ m4 ∷ m5 ∷ [])
unfolding parse_erdma_link_hw_addr hw_addr_of
parse_erdma_link_hw_addr-guid_of m0 m1 m2 m3 m4 m5 (h0, (h1, (h2, (h3, (h4, (h5, u)))))) =
    rw
      (
        split-guid_of m0 m1 m2 m3 m4 m5 (h0, (h1, (h2, (h3, (h4, (h5, u)))))),
        map_res-hex_byte (m5 ∷ m4 ∷ m3 ∷ 254 ∷ 255 ∷ m2 ∷ m1 ∷ m0 ∷ [])
            (h5, (h4, (h3, (omega arith, (omega arith, (h2, (h1, (h0, tt)))))))),
      )
      refl

-- No link of the list but those of `addr` has a GUID that reads as `addr`, and every GUID reads.
unfoldable pub Foreign : List ℕ → List RdmaLink → Type 0
Foreign addr =
    All λ rl. (bytes : List ℕ) × (parse_erdma_link_hw_addr rl.node_guid ≡ ok bytes) × (bytes ≢ addr)

text_eq-≢ : (s t : Text) → s ≢ t → text_eq s t ≡ false
text_eq-≢ s t n = ground (arith, text_eq_iff s t)

find_link_lem :
    (addr : List ℕ) (before after : List RdmaLink) (rl : RdmaLink)
    → Foreign addr before
    → parse_erdma_link_hw_addr rl.node_guid ≡ ok addr
    → find_link addr (before ++ rl ∷ after) ≡ ok rl
unfolding find_link Foreign
find_link_lem addr [] after rl f h = rw (h, text_eq_refl addr, find_link) refl
find_link_lem addr (b ∷ before) after rl ((bytes, p, n), f) h =
    rw (p, text_eq-≢ bytes addr n, find_link) (find_link_lem addr before after rl f h)

-- When the bytes of a hardware address, the flipped first one included, are below 256, and the links
-- before one that has the GUID of the flipped address have GUIDs that read as other addresses, that
-- link is found, whatever follows it.
pub get_erdma_from_link-guid_of :
    (m0 m1 m2 m3 m4 m5 : ℕ)
    → All (λ b. b < 256) (bit_xor m0 2 ∷ m1 ∷ m2 ∷ m3 ∷ m4 ∷ m5 ∷ [])
    → (before after : List RdmaLink) (name : Text)
    → Foreign (bit_xor m0 2 ∷ m1 ∷ m2 ∷ m3 ∷ m4 ∷ m5 ∷ []) before
    → get_erdma_from_link (m0 ∷ m1 ∷ m2 ∷ m3 ∷ m4 ∷ m5 ∷ []) (
        ok (
          before
          ++ record { name = name; node_guid = guid_of (bit_xor m0 2) m1 m2 m3 m4 m5 } ∷ after))
      ≡ ok (record { name = name; node_guid = guid_of (bit_xor m0 2) m1 m2 m3 m4 m5 })
unfolding get_erdma_from_link flip_local
get_erdma_from_link-guid_of m0 m1 m2 m3 m4 m5 h before after name f =
    find_link_lem _ before after _ f (parse_erdma_link_hw_addr-guid_of _ m1 m2 m3 m4 m5 h)
