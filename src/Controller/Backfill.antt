-- ===== src/Controller/Backfill.antt =====
-- backfillEriTags of node_controller.go, with the set `taggedENIs` of interfaces that this process
-- has tagged or is about to tag.
pub mod Laws
use alibabacloud_erdma_contr.Prelude.{
  String, str_eq, Bool, true, false, not, ◌||◌, List, [], ◌∷◌, ◌++◌, map, keep, is_empty,
  if◌then◌else◌,
}
use alibabacloud_erdma_contr.Exec.{Exec}
use alibabacloud_erdma_contr.Exec.Act.{pure, handle}
use alibabacloud_erdma_contr.Types.{ERdmaDevice, DeviceInfo}
use alibabacloud_erdma_contr.Ecs.{Ecs}
use alibabacloud_erdma_contr.Eri.Choose.{ensure_eri_tags}

-- Membership in taggedENIs.
unfoldable pub member : List String → String → Bool
member [] id = false
member (t ∷ ts) id = str_eq t id || member ts id

unfoldable pub device_ids : List ERdmaDevice → List String
device_ids [] = []
device_ids (d ∷ ds) = map (λ (i : DeviceInfo). i.id) d.spec.devices ++ device_ids ds

-- The ids that LoadOrStore finds new, with the set after it; blank ids are passed over.
unfoldable pub claim_new : List String → List String → List String × List String
claim_new tagged [] = ([], tagged)
claim_new tagged (id ∷ ids) = elim (str_eq id "") [
  | true ↦ claim_new tagged ids
  | false ↦ elim (member tagged id) [
    | true ↦ claim_new tagged ids
    | false ↦ let rest = claim_new (id ∷ tagged) ids in (id ∷ rest.0, rest.1)
  ]
]

-- taggedENIs.Delete
unfoldable pub delete_id : List String → String → List String
delete_id tagged id = keep (λ t. not (str_eq t id)) tagged

unfoldable pub delete_ids : List String → List String → List String
delete_ids tagged [] = tagged
delete_ids tagged (id ∷ ids) = delete_ids (delete_id tagged id) ids

-- What comes back is taggedENIs afterwards.
unfoldable pub backfill_eri_tags :
    {W : Type 0} → Ecs W → List String → List ERdmaDevice → String → Exec W (List String)
unfolding claim_new delete_ids
backfill_eri_tags ecs tagged devices instance_id =
    let claimed = claim_new tagged (device_ids devices) in
    if is_empty claimed.0
    then pure tagged
    else handle (ensure_eri_tags ecs claimed.0 instance_id) (λ x. pure claimed.1)
        (λ e. pure (delete_ids claimed.1 claimed.0))
