-- ===== src/Driver/Select.antt =====
-- SelectERIs of internal/drivers/utils_linux.go: the local devices that the agent exposes without
-- the controller.
use alibabacloud_erdma_contr.Prelude.{
  ℕ, ◌≡◌, arith, ℤ, negsuc, Bool, true, false, Option, none, some, List, [], ◌∷◌, ◌++◌, All,
  All-append, Text, codes, text_eq,
}
use alibabacloud_erdma_contr.Exec.{Res, ok, err, panic, wrap}
use alibabacloud_erdma_contr.Exec.Pure.{◌>>=◌, Post, Post-bind, Post-ok}
use alibabacloud_erdma_contr.Driver.Expose.{check_expose}
use alibabacloud_erdma_contr.Driver.Guid.{RdmaLink, get_erdma_from_link}

-- A link of netlink; `hardware_addr` is none where the address is nil.
pub record LocalLink : Type 0 where
  pub name : Text
  pub is_device : Bool
  pub hardware_addr : Option (List ℕ)

-- The ERI that is built, with its names as texts.
pub record LocalEri : Type 0 where
  pub id : Text
  pub is_primary_eni : Bool
  pub mac : Text
  pub instance_id : Text
  pub card_index : ℤ
  pub queue_pair : ℤ

-- What the loop reads: the instance's id, empty where the metadata server did not answer, the
-- setting, the outcome of netlink.RdmaLinkList, and the text of an address.
pub record Local : Type 0 where
  pub instance_id : Text
  pub exposed : List Text
  pub rdma_links : Res (List RdmaLink)
  pub addr_text : List ℕ → Text

unfoldable pub eri_of : Local → Text → Text → List ℕ → LocalEri
eri_of l rdma_device link_name addr = record {
  id = rdma_device;
  is_primary_eni = text_eq link_name (codes "eth0");
  mac = l.addr_text addr;
  instance_id = l.instance_id;
  card_index = negsuc 0;
  queue_pair = negsuc 0;
}

-- The ERI of one link, if it is exposed. An RDMA link that cannot be found is passed over.
unfoldable pub eri_of_addr : Local → Text → List ℕ → Res (List LocalEri)
unfolding eri_of
eri_of_addr l link_name addr = elim (get_erdma_from_link addr l.rdma_links) [
  | err e ↦ ok []
  | panic ↦ panic
  | ok rl ↦ elim (check_expose l.instance_id l.exposed rl.name) [
    | err e ↦ err e
    | panic ↦ panic
    | ok exposed ↦ elim exposed [ true ↦ ok (eri_of l rl.name link_name addr ∷ []) | false ↦ ok [] ]
  ]
]

-- A link that is no device or has no address is passed over.
unfoldable pub eri_of_parts : Local → Text → Bool → Option (List ℕ) → Res (List LocalEri)
unfolding eri_of_addr
eri_of_parts l name false addr = ok []
eri_of_parts l name true none = ok []
eri_of_parts l name true (some addr) = eri_of_addr l name addr

abbrev pub eri_of_link : Local → LocalLink → Res (List LocalEri)
eri_of_link l link = eri_of_parts l link.name link.is_device link.hardware_addr

unfoldable pub select_loop : Local → List LocalLink → List LocalEri → Res (List LocalEri)
unfolding eri_of_parts
select_loop l [] chosen = ok chosen
select_loop l (link ∷ links) chosen = do
  here ← eri_of_link l link
  select_loop l links (chosen ++ here)

-- `links` is the outcome of netlink.LinkList.
unfoldable pub select_eris_local : Local → Res (List LocalLink) → Res (List LocalEri)
unfolding select_loop
select_eris_local l links = elim links [
  | err e ↦ err (wrap "list link failed: %v" [] e)
  | panic ↦ panic
  | ok ls ↦ select_loop l ls []
]

-- The setting exposes the device of the ERI.
unfoldable pub IsExposed : Local → LocalEri → Type 0
IsExposed l e = check_expose l.instance_id l.exposed e.id ≡ ok true

eri_of_addr-IsExposed :
    (l : Local) (name : Text) (addr : List ℕ) → Post (All (IsExposed l)) (eri_of_addr l name addr)
unfolding eri_of_addr eri_of IsExposed
eri_of_addr-IsExposed l name addr = ground arith

eri_of_parts-IsExposed :
    (l : Local) (name : Text) (b : Bool) (addr : Option (List ℕ))
    → Post (All (IsExposed l)) (eri_of_parts l name b addr)
unfolding eri_of_parts
eri_of_parts-IsExposed l name false addr = tt
eri_of_parts-IsExposed l name true none = tt
eri_of_parts-IsExposed l name true (some addr) = eri_of_addr-IsExposed l name addr

select_loop-IsExposed :
    (l : Local) (links : List LocalLink) (chosen : List LocalEri)
    → All (IsExposed l) chosen
    → Post (All (IsExposed l)) (select_loop l links chosen)
unfolding select_loop
select_loop-IsExposed l [] chosen h = h
select_loop-IsExposed l (link ∷ links) chosen h =
    Post-bind (All (IsExposed l)) (All (IsExposed l)) (eri_of_link l link) _
      (eri_of_parts-IsExposed l link.name link.is_device link.hardware_addr)
      λ here k.
        select_loop-IsExposed l links (chosen ++ here) (All-append (IsExposed l) chosen here h k)

-- Every ERI that `select_eris_local` returns has a device that `check_expose` exposes.
select_eris_local-IsExposed :
    (l : Local) (links : Res (List LocalLink)) (chosen : List LocalEri)
    → select_eris_local l links ≡ ok chosen
    → All (IsExposed l) chosen
unfolding select_eris_local
select_eris_local-IsExposed l (ok ls) chosen h =
    Post-ok (All (IsExposed l)) (select_loop l ls []) h (select_loop-IsExposed l ls [] tt)
select_eris_local-IsExposed l (err e) chosen h = cc
select_eris_local-IsExposed l panic chosen h = cc
