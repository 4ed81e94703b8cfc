-- ===== src/Controller/Backfill/Laws.antt =====
-- taggedENIs across a backfill: what is asked of the cloud, and what the set holds afterwards.
use alibabacloud_erdma_contr.Prelude.{
  String, str_eq, eq_iff, eq_refl, ◌≡◌, refl, true, false, not, ◌&&◌, ◌||◌, List, [], ◌∷◌, is_empty,
  arith,
}
use alibabacloud_erdma_contr.Exec.{Error, done, fail}
use alibabacloud_erdma_contr.Types.{ERdmaDevice}
use alibabacloud_erdma_contr.Ecs.{Ecs}
use alibabacloud_erdma_contr.Eri.Choose.{ensure_eri_tags}
use alibabacloud_erdma_contr.Controller.Backfill.{
  member, device_ids, claim_new, delete_id, delete_ids, backfill_eri_tags,
}

-- No id stands in the list twice.
abbrev pub Distinct : List String → Type 0
Distinct [] = Unit {0}
Distinct (x ∷ xs) = (member xs x ≡ false) × Distinct xs

-- A claimed id is one of the ids, is not blank, and was not in the set.
abbrev pub IsFresh : List String → List String → String → Type 0
IsFresh tagged ids id = (member ids id ≡ true) × (str_eq id "" ≡ false) × (member tagged id ≡ false)

pub member-claim_new :
    (tagged ids : List String) (id : String)
    → member (claim_new tagged ids).1 id
      ≡ (member tagged id || (member ids id && not (str_eq id "")))
unfolding claim_new member
member-claim_new tagged [] id = ground arith
member-claim_new tagged (x ∷ ids) id =
    ground
      (arith, eq_iff x id, member-claim_new tagged ids id, member-claim_new (x ∷ tagged) ids id)

-- An id is claimed exactly if the set lacked it and has it afterwards.
pub member-claimed :
    (tagged ids : List String) (id : String)
    → member (claim_new tagged ids).0 id
      ≡ (member ids id && not (str_eq id "") && not (member tagged id))
unfolding claim_new member
member-claimed tagged [] id = ground arith
member-claimed tagged (x ∷ ids) id =
    ground (arith, eq_iff x id, member-claimed tagged ids id, member-claimed (x ∷ tagged) ids id)

pub claim_new-Distinct : (tagged ids : List String) → Distinct (claim_new tagged ids).0
unfolding claim_new member
claim_new-Distinct tagged [] = tt
claim_new-Distinct tagged (x ∷ ids) = ground (
  arith,
  eq_refl x,
  claim_new-Distinct tagged ids,
  claim_new-Distinct (x ∷ tagged) ids,
  member-claimed (x ∷ tagged) ids x,
)

member-delete_id :
    (tagged : List String) (x id : String)
    → member (delete_id tagged x) id ≡ (member tagged id && not (str_eq x id))
unfolding delete_id member
member-delete_id [] x id = refl
member-delete_id (t ∷ ts) x id =
    ground (arith, eq_iff t x, eq_iff t id, eq_iff x id, member-delete_id ts x id)

pub member-delete_ids :
    (tagged ids : List String) (id : String)
    → member (delete_ids tagged ids) id ≡ (member tagged id && not (member ids id))
unfolding delete_ids member
member-delete_ids tagged [] id = ground arith
member-delete_ids tagged (x ∷ ids) id =
    ground (arith, member-delete_ids (delete_id tagged x) ids id, member-delete_id tagged x id)

no_members : (l : List String) → ((id : String) → member l id ≡ false) → is_empty l ≡ true
unfolding member
no_members [] h = refl
no_members (x ∷ xs) h = ground (arith, h x, eq_refl x)

claim_new-none :
    (tagged ids : List String)
    → is_empty (claim_new tagged ids).0 ≡ true
    → (claim_new tagged ids).1 ≡ tagged
unfolding claim_new
claim_new-none tagged [] h = refl
claim_new-none tagged (x ∷ ids) h = ground (arith, claim_new-none tagged ids)

-- Nothing is claimed where the set has every id that is not blank.
claim_new_again :
    (tagged ids : List String)
    → ((id : String)
        → member tagged id ≡ (member tagged id || (member ids id && not (str_eq id ""))))
    → is_empty (claim_new tagged ids).0 ≡ true
claim_new_again tagged ids h =
    no_members (claim_new tagged ids).0 λ id. ground (arith, member-claimed tagged ids id, h id)

module _ {W : Type 0} (ecs : Ecs W) (tagged : List String) (devices : List ERdmaDevice)
    (instance_id : String) where
  -- The one request of a backfill names each id once, and only ids of the devices that are not
  -- blank and were not yet in the set.
  pub backfill_request_fresh :
      Distinct (claim_new tagged (device_ids devices)).0
      × ((id : String)
          → member (claim_new tagged (device_ids devices)).0 id
            ≡ (member (device_ids devices) id && not (str_eq id "") && not (member tagged id)))
  backfill_request_fresh =
      (claim_new-Distinct tagged (device_ids devices), member-claimed tagged (device_ids devices))

  -- When the tagging of the newly claimed ids succeeds, the set has gained exactly the devices' ids that are not blank, and
  -- another backfill of the same devices, in any world, makes no call and keeps the set.
  pub backfill_once :
      (w v : W)
      → ensure_eri_tags ecs (claim_new tagged (device_ids devices)).0 instance_id w ≡ done tt v
      → (t : List String) × (backfill_eri_tags ecs tagged devices instance_id w ≡ done t v)
        × ((id : String)
            → member t id
              ≡ (member tagged id || (member (device_ids devices) id && not (str_eq id ""))))
        × ((u : W) → backfill_eri_tags ecs t devices instance_id u ≡ done t u)
  unfolding backfill_eri_tags ensure_eri_tags
  backfill_once w v e =
      let ids = device_ids devices in
      let claimed = claim_new tagged ids in
      let marked = member-claim_new tagged ids in
      let again = claim_new_again claimed.1 ids (λ id. ground (arith, marked id)) in
      (claimed.1, ground (arith, claim_new-none tagged ids), marked, (λ u. rw again refl))

  -- When the tagging of the newly claimed ids fails, the set has the members that it had before, and the error is dropped.
  pub backfill_rollback :
      (w v : W) (x : Error)
      → ensure_eri_tags ecs (claim_new tagged (device_ids devices)).0 instance_id w ≡ fail x v
      → (t : List String) × (backfill_eri_tags ecs tagged devices instance_id w ≡ done t v)
        × ((id : String) → member t id ≡ member tagged id)
  unfolding backfill_eri_tags ensure_eri_tags
  backfill_rollback w v x e =
      let ids = device_ids devices in
      let claimed = claim_new tagged ids in
      (
        delete_ids claimed.1 claimed.0,
        ground arith,
        (λ id. ground (
          arith,
          member-delete_ids claimed.1 claimed.0 id,
          member-claim_new tagged ids id,
          member-claimed tagged ids id,
        )),
      )
