-- ===== src/Plugin/Runtime/Verify.antt =====
-- verifySandboxStatus and verifyContainerStatus of internal/deviceplugin/pod_config.go: the fields
-- that a status of the runtime must have.
use alibabacloud_erdma_contr.Prelude.{
  ◌≡◌, ◌≢◌, arith, ◌↔◌, ◌==◌, ==_iff, String, str_eq, eq_iff, Bool, true, false, ◌||◌, Option, none,
  some, [], ℤ, pos, negsuc, if◌then◌else◌,
}
use alibabacloud_erdma_contr.Exec.{Res, ok, err, errorf}

pub record PodSandboxMetadata : Type 0 where
  pub name : String
  pub namespace : String
  pub uid : String

pub record PodSandboxStatus (X : Type 0) : Type 0 where
  pub id : String
  pub metadata : Option PodSandboxMetadata
  pub created_at : ℤ
  pub rest : X

-- `metadata` is the name in it, and `image` the name in the image's specification.
pub record ContainerStatus (X : Type 0) : Type 0 where
  pub id : String
  pub metadata : Option String
  pub created_at : ℤ
  pub image : Option String
  pub image_ref : String
  pub rest : X

unfoldable pub is_zero : ℤ → Bool
is_zero (pos n) = n == 0
is_zero (negsuc n) = false

unfoldable pub no_image : Option String → Bool
no_image none = true
no_image (some image) = str_eq image ""

is_zero_iff : (n : ℤ) → (is_zero n ≡ true) ↔ (n ≡ pos 0)
unfolding is_zero
is_zero_iff (pos n) = grind (arith, ==_iff n 0)
is_zero_iff (negsuc n) = ground arith

module _ {X : Type 0} where
  unfoldable pub verify_sandbox_status : PodSandboxStatus X → Res (Unit {0})
  unfolding is_zero
  verify_sandbox_status st =
      if str_eq st.id "" then err (errorf "status.Id is not set" []) else elim st.metadata [
        | none ↦ err (errorf "status.Metadata is not set" [])
        | some m ↦
            if str_eq m.name "" || str_eq m.namespace "" || str_eq m.uid ""
            then err (
                errorf "metadata.Name, metadata.Namespace or metadata.Uid is not in metadata %q" [])
            else if is_zero st.created_at
            then err (errorf "status.CreatedAt is not set" [])
            else ok tt
      ]

  unfoldable pub verify_container_status : ContainerStatus X → Res (Unit {0})
  unfolding is_zero no_image
  verify_container_status st =
      if str_eq st.id "" then err (errorf "status.Id is not set" []) else elim st.metadata [
        | none ↦ err (errorf "status.Metadata is not set" [])
        | some name ↦
            if str_eq name ""
            then err (errorf "metadata.Name is not in metadata %q" [])
            else if is_zero st.created_at
            then err (errorf "status.CreatedAt is not set" [])
            else if no_image st.image
            then err (errorf "status.Image is not set" [])
            else if str_eq st.image_ref ""
            then err (errorf "status.ImageRef is not set" [])
            else ok tt
      ]

  -- The required fields of a sandbox's status, as the comment on the function asks for them.
  abbrev pub IsSandbox : PodSandboxStatus X → Type 0
  IsSandbox st =
      (st.id ≢ "")
      × ((m : PodSandboxMetadata) × (st.metadata ≡ some m)
          × (m.name ≢ "")
          × (m.namespace ≢ "")
          × (m.uid ≢ ""))
      × (st.created_at ≢ pos 0)

  abbrev pub IsContainer : ContainerStatus X → Type 0
  IsContainer st =
      (st.id ≢ "")
      × ((name : String) × (st.metadata ≡ some name) × (name ≢ ""))
      × (st.created_at ≢ pos 0)
      × ((image : String) × (st.image ≡ some image) × (image ≢ ""))
      × (st.image_ref ≢ "")

  -- `verifySandboxStatus` accepts a status exactly if its required fields are set: the id, the
  -- metadata with a name, a namespace and a uid, and the time of creation.
  pub verify_sandbox_status_iff :
      (st : PodSandboxStatus X) → (verify_sandbox_status st ≡ ok tt) ↔ IsSandbox st
  unfolding verify_sandbox_status
  verify_sandbox_status_iff st = grind (arith, eq_iff, is_zero_iff)

  -- `verifyContainerStatus` accepts a status exactly if its required fields are set: the id, the
  -- metadata with a name, the time of creation, the image with a name, and its reference.
  pub verify_container_status_iff :
      (st : ContainerStatus X) → (verify_container_status st ≡ ok tt) ↔ IsContainer st
  unfolding verify_container_status no_image
  verify_container_status_iff st = grind (arith, eq_iff, is_zero_iff)
