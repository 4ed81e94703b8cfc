-- ===== src/Driver/Examples.antt =====
-- A link with two RDMA links, of which one is its own, for the theorems on
-- internal/drivers/utils_linux.go.
use alibabacloud_erdma_contr.Prelude.{
  ℕ, ◌<◌, ◌≡◌, ◌≢◌, refl, negsuc, true, false, none, some, List, [], ◌∷◌, ◌++◌, All, codes, arith,
  split, text_eq,
}
use Prim.Native.Nat.{bit_xor}
use alibabacloud_erdma_contr.Exec.{ok, err, errorf}
use alibabacloud_erdma_contr.Driver.Guid.{RdmaLink, get_erdma_from_link}
use alibabacloud_erdma_contr.Driver.Guid.RoundTrip.{
  guid_of, Foreign, parse_erdma_link_hw_addr-guid_of, get_erdma_from_link-guid_of,
}
use alibabacloud_erdma_contr.Driver.Expose.{
  check_expose, expose_loop, is_expose_info, scan, scan_step, turn, before_blank, listed,
  after_blank, trim_left, is_word, is_space,
}
use alibabacloud_erdma_contr.Driver.Expose.Stars.{star_refused}
use alibabacloud_erdma_contr.Driver.Select.{
  LocalLink, LocalEri, Local, select_eris_local, select_loop, eri_of_parts, eri_of_addr, eri_of,
}

-- The address 02:16:3e:01:02:03 with its bit flipped, and another one.
abbrev flipped_addr : List ℕ
flipped_addr = 0 ∷ 22 ∷ 62 ∷ 1 ∷ 2 ∷ 3 ∷ []

abbrev other_link : RdmaLink
other_link = record { name = codes "mlx5_0"; node_guid = guid_of 4 22 62 1 2 3 }

abbrev own_link : RdmaLink
own_link = record { name = codes "erdma_0"; node_guid = guid_of (bit_xor 2 2) 22 62 1 2 3 }

bytes_below : All (λ b. b < 256) (bit_xor 2 2 ∷ 22 ∷ 62 ∷ 1 ∷ 2 ∷ 3 ∷ [])
bytes_below = ground arith

other_below : All (λ b. b < 256) (4 ∷ 22 ∷ 62 ∷ 1 ∷ 2 ∷ 3 ∷ [])
other_below = ground arith

not_flipped :
    ◌≢◌ {A = List ℕ} (4 ∷ 22 ∷ 62 ∷ 1 ∷ 2 ∷ 3 ∷ []) (bit_xor 2 2 ∷ 22 ∷ 62 ∷ 1 ∷ 2 ∷ 3 ∷ [])
not_flipped = λ e. ground arith

other-Foreign : Foreign (bit_xor 2 2 ∷ 22 ∷ 62 ∷ 1 ∷ 2 ∷ 3 ∷ []) (other_link ∷ [])
unfolding Foreign
other-Foreign = (
  (
    4 ∷ 22 ∷ 62 ∷ 1 ∷ 2 ∷ 3 ∷ [],
    parse_erdma_link_hw_addr-guid_of 4 22 62 1 2 3 other_below,
    not_flipped,
  ),
  tt,
)

get_erdma_from_link-guid_of_example :
    get_erdma_from_link (2 ∷ 22 ∷ 62 ∷ 1 ∷ 2 ∷ 3 ∷ []) (ok (other_link ∷ own_link ∷ []))
    ≡ ok own_link
get_erdma_from_link-guid_of_example =
    get_erdma_from_link-guid_of 2 22 62 1 2 3 bytes_below (other_link ∷ []) [] (codes "erdma_0")
      other-Foreign

abbrev local_node : Local
local_node = record {
  instance_id = codes "i-1";
  exposed = codes "i-1 erdma_0/erdma_1" ∷ [];
  rdma_links = ok (other_link ∷ own_link ∷ []);
  addr_text = λ a. codes "02:16:3e:01:02:03";
}

abbrev local_eri : LocalEri
local_eri = record {
  id = codes "erdma_0";
  is_primary_eni = false;
  mac = codes "02:16:3e:01:02:03";
  instance_id = codes "i-1";
  card_index = negsuc 0;
  queue_pair = negsuc 0;
}

abbrev local_links : List LocalLink
local_links =
    record { name = codes "lo"; is_device = true; hardware_addr = none }
    ∷ record {
      name = codes "eth1";
      is_device = true;
      hardware_addr = some (2 ∷ 22 ∷ 62 ∷ 1 ∷ 2 ∷ 3 ∷ []);
    }
    ∷ []

exposed_0 :
    check_expose (codes "i-1") (codes "i-1 erdma_0/erdma_1" ∷ []) (codes "erdma_0") ≡ ok true
unfolding check_expose expose_loop is_expose_info scan scan_step turn before_blank listed
    after_blank trim_left is_word is_space split text_eq
exposed_0 = refl

select_runs : select_eris_local local_node (ok local_links) ≡ ok (local_eri ∷ [])
unfolding select_eris_local select_loop eri_of_parts eri_of_addr eri_of text_eq
select_runs =
    rw
      (
        get_erdma_from_link-guid_of 2 22 62 1 2 3 bytes_below (other_link ∷ []) [] (codes "erdma_0")
            other-Foreign,
        exposed_0,
        eri_of_addr,
      )
      refl

star_refused_example :
    (is_expose_info (codes "i-*" ++ (32 ∷ (codes "erdma_" ++ (b'*' ∷ [])))) ≡ false)
    × (expose_loop
          (codes "i-1")
          (codes "erdma_0")
          ((codes "i-*" ++ (32 ∷ (codes "erdma_" ++ (b'*' ∷ [])))) ∷ [])
          false
          []
        ≡ err (errorf "invalid format %s" []))
star_refused_example =
    star_refused (codes "i-*") (codes "erdma_") [] (codes "i-1") (codes "erdma_0") [] false []
